-- ===== src/Batch/Estimate.antt =====
-- _entry_data_bytes and _estimate_allreduce_ms.
use morphling.Prelude.{◌&&◌, Option, none, some, List, [], ◌∷◌, length, if◌then◌else◌}
use morphling.Prelude.Int.{ℤ, pos, ◌-ℤ◌, leb_ℤ}
use morphling.Str.{Str, codes, str_eq}
use morphling.Py.{Result, ok, ◌>>=◌}
use morphling.Dict.{lookup, int_eq, str_key}
use morphling.Float.{Float, max_of, min_of, is_positive, literal}
use morphling.Json.{Json, Object, null, get, get_or, to_int, to_float}
use morphling.Batch.Entries.{Entry, Profile}

module _ {F : Type 0} (f : Float F) where
  open f use {zero, one, plus, times, over, at_most, of_int}

  -- The first of the keys whose value, as a float, is above 0.
  unfoldable pub explicit_bytes : List Str → Object F → Option F
  explicit_bytes [] raw = none
  explicit_bytes (k ∷ ks) raw =
      let rest = explicit_bytes ks raw in
      let candidate = to_float f (get k raw) zero in
      if is_positive f candidate then some candidate else rest

  unfoldable pub entry_data_bytes : Entry F → F → F
  unfolding explicit_bytes
  entry_data_bytes e bytes_per_element =
      let alpha = max_of f e.alpha zero in
      let beta = max_of f e.beta zero in
      let m_total = max_of f e.m_total zero in
      let q_total = max_of f e.q_total zero in
      elim (explicit_bytes (codes "data_bytes" ∷ codes "gradient_bytes" ∷ codes "bytes" ∷ [])
        e.raw) [
          | some bytes ↦ bytes
          | none ↦
              if is_positive f alpha && is_positive f beta
              then times (times alpha beta) bytes_per_element
              else if is_positive f m_total && is_positive f q_total
              then times (times m_total q_total) bytes_per_element
              else zero
        ]

  abbrev when_null : Json F → Json F → Json F
  when_null null other = other
  when_null v other = v

  -- The size of the group that the entry names.
  unfoldable pub explicit_size : Entry F → Json F
  explicit_size e =
      let size = get (codes "group_size") e.raw in
      let dp =
        if str_eq e.parallelism_type (codes "dp_allreduce")
        then get (codes "dp_size") e.raw
        else null in
      let tp =
        if str_eq e.parallelism_type (codes "tp_allreduce")
        then get (codes "tp_size") e.raw
        else null in
      when_null (when_null size dp) tp

  -- `min(ul, dl)` of the group's devices that have a profile with both.
  unfoldable pub group_bandwidths : List ℤ → List (ℤ × Profile F) → List F
  group_bandwidths [] profiles = []
  group_bandwidths (d ∷ ds) profiles =
      let rest = group_bandwidths ds profiles in
      elim (lookup d profiles) [
        | none ↦ rest
        | some p ↦
            if is_positive f p.ul_bw && is_positive f p.dl_bw
            then min_of f p.ul_bw p.dl_bw ∷ rest
            else rest
      ]

  unfoldable pub least : F → List F → F
  least x [] = x
  least x (y ∷ ys) = least (min_of f x y) ys

  abbrev least_of : List F → Option F
  least_of [] = none
  least_of (x ∷ xs) = some (least x xs)

  -- `x` if it is there and above 0.
  abbrev if_positive : Option F → Option F
  if_positive none = none
  if_positive (some x) = if is_positive f x then some x else none

  abbrev float_or_none : Json F → Option F
  float_or_none null = none
  float_or_none v = some (to_float f v zero)

  abbrev orelse : Option F → Option F → Option F
  orelse (some x) other = some x
  orelse none other = other

  unfoldable pub bandwidth : Entry F → List ℤ → List (ℤ × Profile F) → Option F → Option F
  unfolding group_bandwidths least
  bandwidth e group profiles allreduce_bandwidth_bps =
      let explicit = get_or (codes "min_bandwidth_bps") (get (codes "bandwidth_bps") e.raw) e.raw in
      orelse (if_positive (float_or_none explicit))
        (orelse (if_positive allreduce_bandwidth_bps) (least_of (group_bandwidths group profiles)))

  -- The ring of k devices: 2 (k - 1) / k of the bytes over the bandwidth, in milliseconds.
  abbrev ring_ms : ℤ → F → F → F
  ring_ms k bytes bw =
      times (over (times (over (times (literal f 2) (of_int (k -ℤ pos 1))) (of_int k)) bytes) bw)
        (literal f 1000)

  unfoldable pub estimate_allreduce_ms :
      Entry F → List ℤ → List (ℤ × Profile F) → F → Option F → Result F
  unfolding entry_data_bytes explicit_size bandwidth
  estimate_allreduce_ms e group profiles bytes_per_element allreduce_bandwidth_bps = do
    explicit ← to_int f (explicit_size e) (pos 0)
    let k : ℤ = if leb_ℤ explicit (pos 0) then pos (length group) else explicit
    let bytes : F = entry_data_bytes e bytes_per_element
    let ms : F = elim (bandwidth e group profiles allreduce_bandwidth_bps) [
      | none ↦ zero
      | some bw ↦ if at_most bw zero then zero else ring_ms k bytes bw
    ]
    ok (if leb_ℤ k (pos 1) then zero else if at_most bytes zero then zero else ms)
