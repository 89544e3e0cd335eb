-- ===== src/Ldpc/Examples.antt =====
-- A decoder that takes 10, then 60 of 48 SMs.
use morphling.Prelude.{
  ◌≡◌, refl, ◌↔◌, true, false, none, some, [], ◌∷◌, Elem, All, arith, leb, ◌+◌, ◌-◌, ◌%◌,
  if◌then◌else◌,
}
use morphling.Prelude.Int.{ℤ, pos, negsuc, ◌-ℤ◌}
use morphling.Str.{codes, join, show, show_ℕ, show_fuel}
use morphling.Py.{ok}
use morphling.Dict.{lookup}
use morphling.GreenCtx.Trace.{parse_trace_file}
use morphling.Ldpc.{
  Frame, LdpcTraceAdapter, Delta, wrap64, make_adapter, to_v2_dataframe, to_v2_file,
  detect_violations, detect_inefficiencies,
}
use morphling.Ldpc.Changes.{IsExact, IsSmall, IsChange, detect_changes}
use morphling.Ldpc.Converted.{pairs, parse_trace_file-to_v2_file}

abbrev frame : Frame
frame =
    (codes "time_slot_sched_ns", some (pos 0) ∷ some (pos 500) ∷ [])
    ∷ (codes "sm_count", some (pos 10) ∷ some (pos 60) ∷ [])
    ∷ (codes "time_decode_start_actual_ns", some (pos 20) ∷ some (pos 530) ∷ [])
    ∷ (codes "profile_idx", some (pos 3) ∷ none ∷ [])
    ∷ []

abbrev adapter : LdpcTraceAdapter
adapter = record {
  total_sms = pos 48;
  rows =
      record {
        time_slot_sched_ns = pos 0;
        sm_count = pos 10;
        time_decode_start_actual_ns = pos 20;
        profile_idx = pos 3;
        effective_sm_count = pos 10;
      }
      ∷ record {
        time_slot_sched_ns = pos 500;
        sm_count = pos 60;
        time_decode_start_actual_ns = pos 530;
        profile_idx = pos 0;
        effective_sm_count = pos 48;
      }
      ∷ [];
  warned = true;
}

adapter_is_made : make_adapter (pos 48) frame ≡ ok adapter
unfolding make_adapter lookup
adapter_is_made = refl

file_is_written :
    to_v2_file adapter ≡ codes "timestamp_ns,num_sms,tag" ∷ codes "0,38,3" ∷ codes "500,0,0" ∷ []
unfolding to_v2_file ◌-ℤ◌ join show show_ℕ show_fuel
file_is_written = refl

parse_trace_file-to_v2_file_example :
    ((parse_trace_file (to_v2_file adapter)).entries ≡ pairs (to_v2_dataframe adapter))
    × ((parse_trace_file (to_v2_file adapter)).time_unit ≡ codes "us")
parse_trace_file-to_v2_file_example = parse_trace_file-to_v2_file adapter

abbrev rise : Delta
rise = record { row_idx = 1; prev_sm = pos 10; curr_sm = pos 60; switch_gap_ns = pos 30 }

-- Doubles of which those above 2^53 in size are even, as far as 2^54.
abbrev doubled : ℤ → ℤ
doubled (pos n) = pos (if leb n 9007199254740992 then n else n - n % 2)
doubled (negsuc n) = negsuc (if leb (n + 1) 9007199254740992 then n else n - (n + 1) % 2)

doubled_exact : (n : ℤ) → IsExact n → doubled n ≡ n
doubled_exact (pos n) small = ground arith
doubled_exact (negsuc n) small = ground arith

adapter-IsSmall : All IsSmall adapter.rows
unfolding ◌-ℤ◌
adapter-IsSmall =
    ((omega arith, (omega arith, omega arith)), ((omega arith, (omega arith, omega arith)), tt))

detect_changes_example :
    (Elem rise (detect_violations doubled adapter) ↔ IsChange true 1 adapter.rows rise)
    × (Elem rise (detect_inefficiencies doubled adapter) ↔ IsChange false 1 adapter.rows rise)
detect_changes_example = detect_changes doubled doubled_exact adapter rise adapter-IsSmall

rise_is_found : detect_violations doubled adapter ≡ rise ∷ []
unfolding detect_violations ◌-ℤ◌ wrap64
rise_is_found = refl
