-- ===== src/VTime/Write.antt =====
-- scripts/sync_virtual_time.py: the lines that `apply_offsets` prints and their order in the output
-- of `write_synchronized_log`.
use mathlib.Core.List.{◌++◌}
use morphling.Prelude.{
  ℕ, zero, suc, Bool, true, false, ◌&&◌, ◌||◌, Option, List, [], ◌∷◌, map, if◌then◌else◌,
}
use morphling.Prelude.Int.{ℤ, pos, ltb_ℤ, eqb_ℤ}
use morphling.Str.{Str, codes, split, join, show}
use morphling.Py.{Result, ok, raise, index_error, ◌>>=◌}
use morphling.Sort.{sort}
use morphling.VTime.{VtEvent, ThroughputEvent, int_field, read_log}
use morphling.VTime.Sync.{Table, Method, find_compute_start_times, calculate_offsets, synchronized}

unfoldable pub vtime_line : VtEvent → Str
vtime_line e = join b',' (
    codes "VTIME"
    ∷ show e.timestamp_us
    ∷ show e.device_id
    ∷ show e.gemm_id
    ∷ e.phase
    ∷ e.event
    ∷ show e.vt_start_us
    ∷ show e.vt_end_us
    ∷ show e.vt_duration_us
    ∷ [])

-- A line with the timestamp that the output is sorted by, and whether it is a header.
pub record Stamped : Type 0 where
  pub timestamp : ℤ
  pub is_header : Bool
  pub text : Str

abbrev pub header : Str → Stamped
header line = record { timestamp = pos 0; is_header = true; text = line }

-- `parts[i]`
abbrev pub part : ℕ → List Str → Result Str
part i [] = raise index_error
part zero (p ∷ parts) = ok p
part (suc i) (p ∷ parts) = part i parts

-- The lines of the events, with the timestamp read back from field `i`.
unfoldable pub stamp_all : ℕ → List Str → Result (List Stamped)
stamp_all i [] = ok []
stamp_all i (line ∷ lines) = do
  field ← part i (split b',' line)
  timestamp ← int_field field
  rest ← stamp_all i lines
  ok (record { timestamp = timestamp; is_header = false; text = line } ∷ rest)

-- `(x[0], 0 if x[1] == "header" else 1)`, in the order of pairs.
abbrev pub stamped_leb : Stamped → Stamped → Bool
stamped_leb a b =
    ltb_ℤ a.timestamp b.timestamp
    || eqb_ℤ a.timestamp b.timestamp && (a.is_header || (if b.is_header then false else true))

-- The lines that `write_synchronized_log` writes.
unfoldable pub write_synchronized_log : List Str → List Str → List Str → Result (List Stamped)
unfolding stamp_all
write_synchronized_log other_lines vtime_lines throughput_lines = do
  vtime ← stamp_all 1 vtime_lines
  throughput ← stamp_all 0 throughput_lines
  ok (sort stamped_leb (map header other_lines ++ vtime ++ throughput))

module _ {F : Type 0} (float_of : Str → Option F) (two_digits : F → Str) where
  unfoldable pub throughput_line : ThroughputEvent F → Str
  throughput_line e = join b',' (
      show e.timestamp_us
      ∷ show e.device_id
      ∷ show e.gemm_id
      ∷ e.direction
      ∷ show e.bytes
      ∷ two_digits e.throughput_b_s
      ∷ show e.epoch_start_us
      ∷ show e.epoch_end_us
      ∷ show e.packet_duration_us
      ∷ [])

  unfoldable pub apply_offsets :
      List VtEvent → List (ThroughputEvent F) → Table → List Str × List Str
  unfolding vtime_line throughput_line
  apply_offsets vtime throughput offsets =
      let (vtime', throughput') = synchronized vtime throughput offsets in
      (map vtime_line vtime', map throughput_line throughput')

  -- `main`, from the lines of the log to those of the output.
  unfoldable pub synchronize : Method → List Str → Result (List Stamped)
  unfolding apply_offsets
  synchronize method lines = do
    log ← read_log float_of lines
    offsets ← calculate_offsets method (find_compute_start_times log.vtime_events)
    (let (vtime, throughput) = apply_offsets log.vtime_events log.throughput_events offsets in
        write_synchronized_log log.other_lines vtime throughput)
