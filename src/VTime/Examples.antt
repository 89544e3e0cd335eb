-- ===== src/VTime/Examples.antt =====
-- A log of two devices that start one GEMM operation at 100 and at 250.
use morphling.Prelude.{ℕ, ◌≡◌, refl, some, List, [], ◌∷◌, arith, map, Elem, inl, length}
use mathlib.Core.List.{Perm}
use morphling.Prelude.Int.{◌<ℤ◌, ℤ, pos, ◌+ℤ◌, ◌-ℤ◌, ◌≤ℤ◌}
use morphling.Str.{Str, codes}
use morphling.Py.{ok}
use morphling.Dict.{lookup, put}
use morphling.Sort.{IsOrdered}
use morphling.VTime.{VtEvent, parse_vtime_event}
use morphling.VTime.Sync.{
  Table, collect_starts, put_at, baseline, fold, device_offsets, latest, find_compute_start_times,
  calculate_offsets, offset_at, adjust_vtime, synchronized,
}
use morphling.VTime.Write.{vtime_line, Stamped, stamped_leb, synchronize, write_synchronized_log}
use morphling.VTime.Reading.{parse_vtime_event-vtime_line}
use morphling.VTime.Aligned.{starts_aligned}
use morphling.VTime.Origin.{origin_of, synchronized-after_origin}
use morphling.VTime.Merged.{entries, write_synchronized_log-IsOrdered, synchronize-total}

abbrev compute_start : ℤ → ℤ → ℤ → VtEvent
compute_start device vt_start vt_end = record {
  line = [];
  timestamp_us = vt_start;
  device_id = device;
  gemm_id = pos 7;
  phase = codes "COMPUTE";
  event = codes "START";
  vt_start_us = vt_start;
  vt_end_us = vt_end;
  vt_duration_us = vt_end -ℤ vt_start;
}

abbrev first_event : VtEvent
first_event = compute_start (pos 0) (pos 100) (pos 110)

abbrev second_event : VtEvent
second_event = compute_start (pos 1) (pos 250) (pos 260)

abbrev events : List VtEvent
events = first_event ∷ second_event ∷ []

abbrev table : Table
table = (pos 7, (pos 0, pos 100) ∷ (pos 1, pos 250) ∷ []) ∷ []

abbrev offsets : Table
offsets = (pos 7, (pos 0, pos 150) ∷ (pos 1, pos 0) ∷ []) ∷ []

calculated : calculate_offsets latest (find_compute_start_times events) ≡ ok offsets
unfolding calculate_offsets find_compute_start_times collect_starts put_at lookup put baseline fold
    device_offsets ◌-ℤ◌
calculated = refl

starts_aligned_example :
    (adjust_vtime offsets first_event).vt_start_us ≡ (adjust_vtime offsets second_event).vt_start_us
starts_aligned_example =
    starts_aligned latest events offsets first_event second_event calculated
      ([], second_event ∷ [], refl, refl, (refl, tt)) (first_event ∷ [], [], refl, refl, tt) refl

-- The first event is moved to 250, and the origin with it.
synchronized-after_origin_example :
    (out : VtEvent) × Elem out (synchronized {F = ℕ} events [] offsets).0
    × (pos 0 ≤ℤ out.vt_start_us)
    × (pos 0 <ℤ origin_of {F = ℕ} events [] offsets)
    × (out ≡ record first_event {
      vt_start_us =
          first_event.vt_start_us
          +ℤ offset_at offsets first_event.gemm_id first_event.device_id
          -ℤ origin_of {F = ℕ} events [] offsets;
      vt_end_us =
          first_event.vt_end_us
          +ℤ offset_at offsets first_event.gemm_id first_event.device_id
          -ℤ origin_of {F = ℕ} events [] offsets;
    })
synchronized-after_origin_example =
    synchronized-after_origin events [] offsets first_event (inl refl)
      (unfold adjust_vtime offset_at lookup ◌+ℤ◌ in omega arith)

-- A third event, of another operation, which begins at zero.
abbrev early : VtEvent
early = record first_event { gemm_id = pos 8; vt_start_us = pos 0 }

-- A float is read and printed as text here.
abbrev lines : List Str
lines =
    codes "# log"
    ∷ codes "VTIME,5,0,7,COMPUTE,START,100,110,10"
    ∷ codes "6,0,7,tx,64,1.00,3,4,1"
    ∷ []

parse_vtime_event-vtime_line_example :
    parse_vtime_event (vtime_line first_event)
    ≡ some (record first_event { line = vtime_line first_event })
parse_vtime_event-vtime_line_example =
    parse_vtime_event-vtime_line first_event
      (refl, (refl, (refl, (refl, (refl, (refl, (refl, tt)))))))
      (refl, (refl, (refl, (refl, (refl, tt)))))

write_synchronized_log-IsOrdered_example :
    (out : List Stamped) × (write_synchronized_log (codes "# log" ∷ []) (map vtime_line events) []
      ≡ ok out)
    × IsOrdered stamped_leb out
    × Perm out (entries {F = Str} some (λ s. s) (codes "# log" ∷ []) events [])
write_synchronized_log-IsOrdered_example =
    write_synchronized_log-IsOrdered {F = Str} some (λ s. s) (codes "# log" ∷ []) events []

synchronize-total_example :
    (out : List Stamped) × (synchronize {F = Str} some (λ s. s) latest lines ≡ ok out)
    × IsOrdered stamped_leb out
    × (length out ≡ length lines)
synchronize-total_example =
    synchronize-total some (λ s. s) latest lines tt (refl, (refl, (refl, tt)))
