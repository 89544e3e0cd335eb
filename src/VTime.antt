-- ===== src/VTime.antt =====
-- scripts/sync_virtual_time.py: the events of a merged performance log, and the reading of its
-- lines. A float is of any type `F`, with `float` and the two-digit format of an f-string.
pub mod Sync
pub mod Write
pub mod Reading
pub mod Aligned
pub mod Direction
pub mod Origin
pub mod Merged
mod Examples
use morphling.Prelude.{
  ℕ, String, Bool, true, false, not, ◌&&◌, ◌||◌, Option, none, some, List, [], ◌∷◌, leb,
  if◌then◌else◌,
}
use morphling.Prelude.Int.{ℤ}
use morphling.Str.{Str, codes, str_eq, is_empty, rstrip, strip, starts_with, split, int_of}
use morphling.Py.{Result, ok, raise, value_error, index_error, or_raise, ◌>>=◌}

pub record VtEvent : Type 0 where
  pub line : Str
  pub timestamp_us : ℤ
  pub device_id : ℤ
  pub gemm_id : ℤ
  pub phase : Str
  pub event : Str
  pub vt_start_us : ℤ
  pub vt_end_us : ℤ
  pub vt_duration_us : ℤ

pub record ThroughputEvent (F : Type 0) : Type 0 where
  pub line : Str
  pub timestamp_us : ℤ
  pub device_id : ℤ
  pub gemm_id : ℤ
  pub direction : Str
  pub bytes : ℤ
  pub throughput_b_s : F
  pub epoch_start_us : ℤ
  pub epoch_end_us : ℤ
  pub packet_duration_us : ℤ

-- `except (ValueError, IndexError): return None`, around code that raises nothing else.
abbrev pub caught : {A : Type 0} → Result A → Option A
caught (ok a) = some a
caught (raise _) = none

-- `int(part)`
abbrev pub int_field : Str → Result ℤ
int_field s = or_raise value_error (int_of s)

unfoldable pub vtime_fields : Str → List Str → Result VtEvent
vtime_fields line (_ ∷ p1 ∷ p2 ∷ p3 ∷ p4 ∷ p5 ∷ p6 ∷ p7 ∷ p8 ∷ _) = do
  timestamp ← int_field p1
  device ← int_field p2
  gemm ← int_field p3
  vt_start ← int_field p6
  vt_end ← int_field p7
  vt_duration ← int_field p8
  ok (record {
    line = line;
    timestamp_us = timestamp;
    device_id = device;
    gemm_id = gemm;
    phase = p4;
    event = p5;
    vt_start_us = vt_start;
    vt_end_us = vt_end;
    vt_duration_us = vt_duration;
  })
vtime_fields line _ = raise index_error

unfoldable pub parse_vtime_event : Str → Option VtEvent
unfolding vtime_fields
parse_vtime_event line =
    if starts_with line (codes "VTIME,")
    then caught (vtime_fields line (split b',' (strip line)))
    else none

module _ {F : Type 0} (float_of : Str → Option F) where
  unfoldable pub throughput_fields : Str → List Str → Result (ThroughputEvent F)
  throughput_fields line (p0 ∷ p1 ∷ p2 ∷ p3 ∷ p4 ∷ p5 ∷ p6 ∷ p7 ∷ p8 ∷ _) = do
    timestamp ← int_field p0
    device ← int_field p1
    gemm ← int_field p2
    size ← int_field p4
    rate ← or_raise value_error (float_of p5)
    epoch_start ← int_field p6
    epoch_end ← int_field p7
    packet_duration ← int_field p8
    ok (record {
      line = line;
      timestamp_us = timestamp;
      device_id = device;
      gemm_id = gemm;
      direction = p3;
      bytes = size;
      throughput_b_s = rate;
      epoch_start_us = epoch_start;
      epoch_end_us = epoch_end;
      packet_duration_us = packet_duration;
    })
  throughput_fields line _ = raise index_error

  -- The test of `line[0]` stands before the `try`: the empty line raises.
  unfoldable pub parse_throughput_event : Str → Result (Option (ThroughputEvent F))
  unfolding throughput_fields
  parse_throughput_event [] = raise index_error
  parse_throughput_event (c ∷ s) =
      if starts_with (c ∷ s) (codes "VTIME,")
        || starts_with (c ∷ s) (codes "#")
        || not (leb 48 c && leb c 57)
      then ok none
      else ok (caught (throughput_fields (c ∷ s) (split b',' (strip (c ∷ s)))))

  -- The three lists that `read_log` collects.
  pub record Log : Type 0 where
    pub vtime_events : List VtEvent
    pub throughput_events : List (ThroughputEvent F)
    pub other_lines : List Str

  -- One line, in front of what the later lines give.
  unfoldable pub add_other : Str → Option (ThroughputEvent F) → Log → Log
  add_other line (some e) log = record log { throughput_events = e ∷ log.throughput_events }
  add_other line none log = record log { other_lines = line ∷ log.other_lines }

  unfoldable pub read_line : Str → Option VtEvent → Result Log → Result Log
  unfolding add_other
  read_line line (some e) later = do
    log ← later
    ok (record log { vtime_events = e ∷ log.vtime_events })
  read_line line none later = do
    parsed ← parse_throughput_event line
    log ← later
    ok (add_other line parsed log)

  -- `read_log` over the lines of the file, each without its line break.
  unfoldable pub read_log : List Str → Result Log
  unfolding read_line
  read_log [] = ok (record { vtime_events = []; throughput_events = []; other_lines = [] })
  read_log (line ∷ lines) = read_line line (parse_vtime_event line) (read_log lines)
