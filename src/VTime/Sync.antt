-- ===== src/VTime/Sync.antt =====
-- scripts/sync_virtual_time.py: the offsets of the devices, and their application.
use morphling.Prelude.{Bool, ◌&&◌, Option, none, some, List, [], ◌∷◌, map, if◌then◌else◌}
use morphling.Prelude.Int.{ℤ, pos, ◌+ℤ◌, ◌-ℤ◌, ltb_ℤ, min_ℤ, max_ℤ}
use morphling.Str.{codes, str_eq}
use morphling.Py.{Result, ok, raise, value_error, ◌>>=◌}
use morphling.Dict.{lookup, put, values, int_eq}
use morphling.VTime.{VtEvent, ThroughputEvent}

-- By `gemm_id`, then by `device_id`.
abbrev pub Table : Type 0
Table = List (ℤ × List (ℤ × ℤ))

-- What a `defaultdict(dict)` gives for a key.
abbrev pub or_empty : Option (List (ℤ × ℤ)) → List (ℤ × ℤ)
or_empty none = []
or_empty (some d) = d

-- `table[gemm][device] = vt`
unfoldable pub put_at : ℤ → ℤ → ℤ → Table → Table
put_at gemm device vt table = put gemm (put device vt (or_empty (lookup gemm table))) table

abbrev pub is_compute_start : VtEvent → Bool
is_compute_start e = str_eq e.phase (codes "COMPUTE") && str_eq e.event (codes "START")

-- The loop of `find_compute_start_times`.
unfoldable pub collect_starts : Table → List VtEvent → Table
unfolding put_at
collect_starts table [] = table
collect_starts table (e ∷ es) =
    collect_starts
      (if is_compute_start e then put_at e.gemm_id e.device_id e.vt_start_us table else table) es

unfoldable pub find_compute_start_times : List VtEvent → Table
unfolding collect_starts
find_compute_start_times = collect_starts []

-- The texts that `method` is compared with; any other text is `unknown`.
pub data Method : Type 0 where
  earliest latest unknown : Method

-- `min(values)` and `max(values)` of one or more values.
unfoldable pub fold : (ℤ → ℤ → ℤ) → ℤ → List ℤ → ℤ
fold f best [] = best
fold f best (v ∷ vs) = fold f (f best v) vs

unfoldable pub baseline : Method → ℤ → List ℤ → Result ℤ
unfolding fold
baseline earliest v vs = ok (fold min_ℤ v vs)
baseline latest v vs = ok (fold max_ℤ v vs)
baseline unknown v vs = raise value_error

-- `for device_id, vt_start in device_times.items(): offsets[gemm_id][device_id] = baseline - vt_start`
unfoldable pub device_offsets : ℤ → List (ℤ × ℤ) → List (ℤ × ℤ)
device_offsets base [] = []
device_offsets base ((device, vt) ∷ times) = (device, base -ℤ vt) ∷ device_offsets base times

-- A GEMM operation without devices is passed over. The operations are the keys of a dictionary, so
-- the table of the offsets has them in the same order.
unfoldable pub calculate_offsets : Method → Table → Result Table
unfolding baseline device_offsets
calculate_offsets method [] = ok []
calculate_offsets method ((gemm, []) ∷ table) = calculate_offsets method table
calculate_offsets method ((gemm, (device, vt) ∷ times) ∷ table) = do
  base ← baseline method vt (values times)
  rest ← calculate_offsets method table
  ok ((gemm, device_offsets base ((device, vt) ∷ times)) ∷ rest)

abbrev pub or_zero : Option ℤ → ℤ
or_zero none = pos 0
or_zero (some n) = n

-- `offsets.get(gemm, {}).get(device, 0)`
unfoldable pub offset_at : Table → ℤ → ℤ → ℤ
offset_at offsets gemm device = or_zero (lookup device (or_empty (lookup gemm offsets)))

-- `t + offset if t > 0 else t`
abbrev pub shift_epoch : ℤ → ℤ → ℤ
shift_epoch offset t = if ltb_ℤ (pos 0) t then t +ℤ offset else t

unfoldable pub adjust_vtime : Table → VtEvent → VtEvent
unfolding offset_at
adjust_vtime offsets e =
    let offset = offset_at offsets e.gemm_id e.device_id in
    record e { vt_start_us = e.vt_start_us +ℤ offset; vt_end_us = e.vt_end_us +ℤ offset }

-- The least positive start, of those and `least`.
unfoldable pub least_positive : Option ℤ → List ℤ → Option ℤ
least_positive least [] = least
least_positive none (t ∷ ts) = least_positive (if ltb_ℤ (pos 0) t then some t else none) ts
least_positive (some m) (t ∷ ts) =
    least_positive (some (if ltb_ℤ (pos 0) t then min_ℤ m t else m)) ts

unfoldable pub normalize_vtime : ℤ → VtEvent → VtEvent
normalize_vtime min_vt e = record e {
  vt_start_us = e.vt_start_us -ℤ min_vt;
  vt_end_us = e.vt_end_us -ℤ min_vt;
}

module _ {F : Type 0} where
  unfoldable pub adjust_throughput : Table → ThroughputEvent F → ThroughputEvent F
  unfolding offset_at
  adjust_throughput offsets e =
      let offset = offset_at offsets e.gemm_id e.device_id in
      record e {
        epoch_start_us = shift_epoch offset e.epoch_start_us;
        epoch_end_us = shift_epoch offset e.epoch_end_us;
      }

  -- `t - min_vt if t > 0 else t`
  unfoldable pub normalize_throughput : ℤ → ThroughputEvent F → ThroughputEvent F
  normalize_throughput min_vt e = record e {
    epoch_start_us =
        if ltb_ℤ (pos 0) e.epoch_start_us then e.epoch_start_us -ℤ min_vt else e.epoch_start_us;
    epoch_end_us =
        if ltb_ℤ (pos 0) e.epoch_end_us then e.epoch_end_us -ℤ min_vt else e.epoch_end_us;
  }

  -- The second pass of `apply_offsets`, over the adjusted events.
  unfoldable pub min_vt_of : List VtEvent → List (ThroughputEvent F) → ℤ
  unfolding least_positive
  min_vt_of vtime throughput = or_zero (
      least_positive (least_positive none (map (λ e. e.vt_start_us) vtime))
        (map (λ e. e.epoch_start_us) throughput))

  -- The events whose lines `apply_offsets` returns.
  unfoldable pub synchronized :
      List VtEvent → List (ThroughputEvent F) → Table → List VtEvent × List (ThroughputEvent F)
  unfolding adjust_vtime adjust_throughput normalize_vtime normalize_throughput min_vt_of
  synchronized vtime throughput offsets =
      let vtime' = map (adjust_vtime offsets) vtime in
      let throughput' = map (adjust_throughput offsets) throughput in
      let min_vt = min_vt_of vtime' throughput' in
      (map (normalize_vtime min_vt) vtime', map (normalize_throughput min_vt) throughput')
