-- ===== src/VTime/Aligned.antt =====
-- The offsets bring the starts of a GEMM operation on all its devices to one virtual time.
use mathlib.Core.List.{◌++◌}
use morphling.Prelude.{
  ◌≡◌, refl, sym, ◌∙◌, ap, Bool, true, false, ◌&&◌, Option, none, some, List, [], ◌∷◌, All, inl,
  inr, Option-cases, Bool-cases, if◌then◌else◌,
}
use morphling.Prelude.Int.{ℤ, ◌+ℤ◌, ◌-ℤ◌, eqb_ℤ, eqb_ℤ_iff, add_offset}
use morphling.Py.{ok, >>=-eq-ok}
use morphling.Dict.{lookup, put, values, int_eq, lookup-put}
use morphling.VTime.{VtEvent}
use morphling.VTime.Sync.{
  Table, or_empty, put_at, is_compute_start, collect_starts, find_compute_start_times, Method,
  baseline, device_offsets, calculate_offsets, offset_at, adjust_vtime,
}

-- The start that a table has for an operation on a device.
abbrev pub start_at : ℤ → ℤ → Table → Option ℤ
start_at gemm device table = lookup device (or_empty (lookup gemm table))

abbrev pub is_same : ℤ → ℤ → VtEvent → Bool
is_same gemm device e = is_compute_start e && (eqb_ℤ e.gemm_id gemm && eqb_ℤ e.device_id device)

start_at-put_at :
    (g d v gemm device : ℤ) (table : Table)
    → start_at gemm device (put_at g d v table)
      ≡ (if eqb_ℤ g gemm && eqb_ℤ d device then some v else start_at gemm device table)
unfolding put_at
start_at-put_at g d v gemm device table = elim (Bool-cases (eqb_ℤ g gemm)) [
  | inl same ↦ rw (lookup-put g gemm (put d v (or_empty (lookup g table))) table) (
      rw same (
        lookup-put d device v (or_empty (lookup g table))
        ∙ ap (λ x. if eqb_ℤ d device then some v else start_at x device table)
            ((eqb_ℤ_iff g gemm).0 same)))
  | inr other ↦ rw (lookup-put g gemm (put d v (or_empty (lookup g table))) table) (rw other refl)
]

-- Later events that are no start of the operation on the device leave its start.
collect_starts-others :
    (gemm device : ℤ) (es : List VtEvent) (table : Table)
    → All (λ e. is_same gemm device e ≡ false) es
    → start_at gemm device (collect_starts table es) ≡ start_at gemm device table
unfolding collect_starts
collect_starts-others gemm device [] table h = refl
collect_starts-others gemm device (e ∷ es) table h = elim (Bool-cases (is_compute_start e)) [
  | inl start ↦
      let other : (eqb_ℤ e.gemm_id gemm && eqb_ℤ e.device_id device) ≡ false = rw start at h.0 in
      rw start (
        collect_starts-others gemm device es (put_at e.gemm_id e.device_id e.vt_start_us table) h.1
        ∙ start_at-put_at e.gemm_id e.device_id e.vt_start_us gemm device table
        ∙ rw other refl)
  | inr none_here ↦ rw none_here (collect_starts-others gemm device es table h.1)
]

-- The event is the last start of its operation on its device.
abbrev pub IsLastStart : VtEvent → List VtEvent → Type 0
IsLastStart e es =
    (before : List VtEvent) × (after : List VtEvent) × (es ≡ before ++ e ∷ after)
    × (is_compute_start e ≡ true)
    × All (λ f. is_same e.gemm_id e.device_id f ≡ false) after

collect_starts-last :
    (before : List VtEvent) (e : VtEvent) (after : List VtEvent) (table : Table)
    → is_compute_start e ≡ true
    → All (λ f. is_same e.gemm_id e.device_id f ≡ false) after
    → start_at e.gemm_id e.device_id (collect_starts table (before ++ e ∷ after))
      ≡ some e.vt_start_us
unfolding collect_starts
collect_starts-last [] e after table start last =
    rw (collect_starts, start)
      (collect_starts-others e.gemm_id e.device_id after
          (put_at e.gemm_id e.device_id e.vt_start_us table) last
        ∙ start_at-put_at e.gemm_id e.device_id e.vt_start_us e.gemm_id e.device_id table
        ∙ rw ((eqb_ℤ_iff e.gemm_id e.gemm_id).1 refl)
            (rw ((eqb_ℤ_iff e.device_id e.device_id).1 refl) refl))
collect_starts-last (b ∷ before) e after table start last =
    collect_starts-last before e after
      (if is_compute_start b then put_at b.gemm_id b.device_id b.vt_start_us table else table) start
      last

start-last :
    (es : List VtEvent) (e : VtEvent)
    → IsLastStart e es
    → start_at e.gemm_id e.device_id (find_compute_start_times es) ≡ some e.vt_start_us
unfolding find_compute_start_times
start-last es e (before, after, parts, start, last) =
    rw parts (collect_starts-last before e after [] start last)

lookup-device_offsets :
    (base device : ℤ) (times : List (ℤ × ℤ)) {v : ℤ}
    → lookup device times ≡ some v
    → lookup device (device_offsets base times) ≡ some (base -ℤ v)
unfolding lookup device_offsets
lookup-device_offsets base device [] h = cc
lookup-device_offsets base device ((d, vt) ∷ times) h = elim (Bool-cases (eqb_ℤ d device)) [
  | inl same ↦ rw same (cc (rw same at h))
  | inr other ↦ rw other (lookup-device_offsets base device times (rw other at h))
]

-- What an operation of the table has in the offsets: they lead to the baseline of its times.
IsBased : Method → Table → Table → Type 0
IsBased method table offsets =
    (gemm device v : ℤ) (times : List (ℤ × ℤ))
    → lookup gemm table ≡ some ((device, v) ∷ times)
    → (base : ℤ) × (baseline method v (values times) ≡ ok base)
      × (lookup gemm offsets ≡ some (device_offsets base ((device, v) ∷ times)))

calculate_offsets-IsBased :
    (method : Method) (table offsets : Table)
    → calculate_offsets method table ≡ ok offsets
    → IsBased method table offsets
unfolding lookup calculate_offsets IsBased
calculate_offsets-IsBased method [] offsets e gemm device v times h = cc
calculate_offsets-IsBased method ((g, []) ∷ table) offsets e gemm device v times h =
    elim (Bool-cases (eqb_ℤ g gemm)) [
      | inl same ↦ absurd (let k : some [] ≡ some ((device, v) ∷ times) = rw same at h in cc)
      | inr other ↦
          calculate_offsets-IsBased method table offsets e gemm device v times (rw other at h)
    ]
calculate_offsets-IsBased method ((g, (d, vt) ∷ ts) ∷ table) offsets e gemm device v times h =
    let (base, based, e') = >>=-eq-ok (baseline method vt (values ts)) _ e in
    let (rest, calculated, e'') = >>=-eq-ok (calculate_offsets method table) _ e' in
    let made : (g, device_offsets base ((d, vt) ∷ ts)) ∷ rest ≡ offsets = cc in
    elim (Bool-cases (eqb_ℤ g gemm)) [
      | inl same ↦
          let k : some ((d, vt) ∷ ts) ≡ some ((device, v) ∷ times) = rw same at h in
          let first : vt ≡ v = cc in
          let others : ts ≡ times = cc in
          let all : (d, vt) ∷ ts ≡ (device, v) ∷ times = cc in
          (
            base,
            ap (λ t. baseline method t (values times)) (sym first)
                ∙ (ap (λ t. baseline method vt (values t)) (sym others) ∙ based),
            ap (lookup gemm) (sym made) ∙ rw same (ap (λ t. some (device_offsets base t)) all),
          )
      | inr other ↦
          let (later, baseline_of, found) =
            calculate_offsets-IsBased method table rest calculated gemm device v times
              (rw other at h) in
          (later, baseline_of, ap (lookup gemm) (sym made) ∙ rw other found)
    ]

-- Where a table has a start, the operation has one baseline, to which the offset leads.
offset_at-start :
    (method : Method) (table offsets : Table)
    → calculate_offsets method table ≡ ok offsets
    → (gemm device v : ℤ) → start_at gemm device table ≡ some v
    → (times : List (ℤ × ℤ)) × (first : ℤ × ℤ) × (base : ℤ) × (lookup gemm table
        ≡ some (first ∷ times))
      × (baseline method first.1 (values times) ≡ ok base)
      × (v +ℤ offset_at offsets gemm device ≡ base)
unfolding IsBased offset_at lookup
offset_at-start method table offsets e gemm device v h = elim (Option-cases (lookup gemm table)) [
  | inl missing ↦ absurd (let k : none ≡ some v = rw missing at h in cc)
  | inr (times, found) ↦ go times found (rw found at h)
]
  where
    go :
        (times : List (ℤ × ℤ))
        → lookup gemm table ≡ some times
        → lookup device times ≡ some v
        → (times : List (ℤ × ℤ)) × (first : ℤ × ℤ) × (base : ℤ) × (lookup gemm table
            ≡ some (first ∷ times))
          × (baseline method first.1 (values times) ≡ ok base)
          × (v +ℤ offset_at offsets gemm device ≡ base)
    go [] found h = cc
    go (first ∷ times) found h =
        let (base, based, offset) =
          calculate_offsets-IsBased method table offsets e gemm first.0 first.1 times found in
        (
          times,
          first,
          base,
          found,
          based,
          rw offset (rw (lookup-device_offsets base device (first ∷ times) h) (add_offset v base)),
        )

-- Of the devices that take part in a GEMM operation, the last starts of the operation are shifted
-- to one and the same virtual time, whatever the method.
pub starts_aligned :
    (method : Method) (es : List VtEvent) (offsets : Table) (e f : VtEvent)
    → calculate_offsets method (find_compute_start_times es) ≡ ok offsets
    → IsLastStart e es
    → IsLastStart f es
    → e.gemm_id ≡ f.gemm_id
    → (adjust_vtime offsets e).vt_start_us ≡ (adjust_vtime offsets f).vt_start_us
unfolding adjust_vtime
starts_aligned method es offsets e f calculated last_e last_f same =
    let table = find_compute_start_times es in
    let (ts, t, base_e, found_e, based_e, at_e) =
      offset_at-start method table offsets calculated e.gemm_id e.device_id e.vt_start_us
        (start-last es e last_e) in
    let (us, u, base_f, found_f, based_f, at_f) =
      offset_at-start method table offsets calculated f.gemm_id f.device_id f.vt_start_us
        (start-last es f last_f) in
    let times : some (t ∷ ts) ≡ some (u ∷ us) =
      sym found_e ∙ (ap (λ g. lookup g table) same ∙ found_f) in
    let first : t ≡ u = cc in
    let others : ts ≡ us = cc in
    let one : ok base_e ≡ ok base_f =
      sym based_e
      ∙ (ap (λ x. baseline method x.1 (values ts)) first
          ∙ (ap (λ xs. baseline method u.1 (values xs)) others ∙ based_f)) in
    let agree : base_e ≡ base_f = cc in at_e ∙ (agree ∙ sym at_f)
