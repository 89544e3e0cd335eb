-- ===== src/Metrics.antt =====
-- morphling/runtime/coordinator_metrics.py and coordinator_metrics_models.py: the collector that
-- samples metrics on a thread and appends records to a file. Floats and phases are of any types;
-- what the reader gives and whether a write succeeds is given for each call, in their order.
pub mod Records
pub mod Phases
pub mod Recorded
pub mod Nics
pub mod Ends
mod Examples
use morphling.Prelude.{
  ℕ, ◌+◌, Bool, true, false, ◌&&◌, not, Option, none, some, List, [], ◌∷◌, ◌++◌, if◌then◌else◌,
}
use morphling.Prelude.Int.{ℤ, pos, ◌-ℤ◌, max_ℤ}
use morphling.Str.{Str}

pub record NicCounters : Type 0 where
  pub bytes_sent : ℤ
  pub bytes_recv : ℤ

pub record MetricReading (F : Type 0) : Type 0 where
  pub timestamp_unix_s : F
  pub monotonic_s : F
  pub process_cpu_percent : F
  pub rss_bytes : ℤ
  pub nic : NicCounters
  pub nic_names : List Str

pub record MetricsSample (F P : Type 0) : Type 0 where
  pub reading : MetricReading F
  pub nic_tx_bytes_per_sec : F
  pub nic_rx_bytes_per_sec : F
  pub phases : P

-- `0.0`, `elapsed <= 0`, the difference of two floats, and an integer divided by a float.
pub record FloatOps (F : Type 0) : Type 0 where
  pub zero_rate : F
  pub is_positive : F → Bool
  pub minus : F → F → F
  pub per : ℤ → F → F

-- A line of the output.
pub data Line (F P E : Type 0) : Type 0 where
  sample : MetricsSample F P → Line F P E
  terminal_error : E → Line F P E

-- The outcomes of the calls, each of which returns or raises: `read` of the reader, and a write with
-- its flush, with the error that either raises, and the phases' snapshots. A write that raises may
-- leave its line in the file all the same, which the second part of `write_errors` says.
pub record Outcomes (F P E : Type 0) : Type 0 where
  pub prime_error : Option E
  pub reads : ℕ → Option (MetricReading F)
  pub read_errors : ℕ → E
  pub snapshots : ℕ → P
  pub write_errors : ℕ → Option (E × Bool)

-- `lines` is what the file holds, with the buffer; the thread runs until its loop ends; `blocked` says
-- that a call of `join` waits for a thread that does not end.
pub record Collector (F P E : Type 0) : Type 0 where
  pub is_open : Bool
  pub lines : List (Line F P E)
  pub previous : Option (MetricReading F)
  pub failure : Option E
  pub stop_event : Bool
  pub running : Bool
  pub blocked : Bool
  pub read_calls : ℕ
  pub write_calls : ℕ

-- What happens to a collector once it was started: a round of the thread's loop, or `stop()`.
pub data Step : Type 0 where
  round stop_call : Step

module _ {F P E : Type 0} (ops : FloatOps F) (outcomes : Outcomes F P E) where
  abbrev pub fresh : Collector F P E
  fresh = record {
    is_open = false;
    lines = [];
    previous = none;
    failure = none;
    stop_event = false;
    running = false;
    blocked = false;
    read_calls = 0;
    write_calls = 0;
  }

  -- Bytes per second between two readings, none where time has not passed.
  unfoldable pub rate : ℤ → ℤ → F → F
  rate current previous elapsed =
      if ops.is_positive elapsed
      then ops.per (max_ℤ (pos 0) (current -ℤ previous)) elapsed
      else ops.zero_rate

  unfoldable pub build_sample : MetricReading F → Option (MetricReading F) → P → MetricsSample F P
  unfolding rate
  build_sample current none phases = record {
    reading = current;
    nic_tx_bytes_per_sec = ops.zero_rate;
    nic_rx_bytes_per_sec = ops.zero_rate;
    phases = phases;
  }
  build_sample current (some previous) phases =
      let elapsed = ops.minus current.monotonic_s previous.monotonic_s in
      record {
        reading = current;
        nic_tx_bytes_per_sec = rate current.nic.bytes_sent previous.nic.bytes_sent elapsed;
        nic_rx_bytes_per_sec = rate current.nic.bytes_recv previous.nic.bytes_recv elapsed;
        phases = phases;
      }

  -- A write and its flush: the error that it raises, if any.
  unfoldable pub write_after :
      Option (E × Bool) → Line F P E → Collector F P E → Option E × Collector F P E
  write_after (some (e, false)) line c = (some e, record c { write_calls = c.write_calls + 1 })
  write_after (some (e, true)) line c =
      (some e, record c { write_calls = c.write_calls + 1; lines = c.lines ++ line ∷ [] })
  write_after none line c =
      (none, record c { write_calls = c.write_calls + 1; lines = c.lines ++ line ∷ [] })

  -- `if self._output is not None: write and flush`
  unfoldable pub write : Line F P E → Collector F P E → Option E × Collector F P E
  unfolding write_after
  write line c =
      if c.is_open then write_after (outcomes.write_errors c.write_calls) line c else (none, c)

  unfoldable pub sample_read :
      Option (MetricReading F) → Collector F P E → Option E × Collector F P E
  unfolding write build_sample
  sample_read none c =
      (some (outcomes.read_errors c.read_calls), record c { read_calls = c.read_calls + 1 })
  sample_read (some reading) c =
      let built = build_sample reading c.previous (outcomes.snapshots c.read_calls) in
      write (sample built) (record c { read_calls = c.read_calls + 1; previous = some reading })

  -- `_sample_once`: the error that it raises, if any.
  unfoldable pub sample_once : Collector F P E → Option E × Collector F P E
  unfolding sample_read
  sample_once c = sample_read (outcomes.reads c.read_calls) c

  -- `_record_failure`, whose own write may fail in silence.
  unfoldable pub record_failure : E → Option E → Collector F P E → Collector F P E
  unfolding write
  record_failure e (some earlier) c = c
  record_failure e none c =
      let (failed, c') = write (terminal_error e) (record c { failure = some e }) in c'

  unfoldable pub close_output : Collector F P E → Collector F P E
  close_output c = record c { is_open = false }

  -- The end of `start`: the thread is started, or the failure is recorded and raised.
  unfoldable pub started : Option E × Collector F P E → Option E × Collector F P E
  unfolding record_failure close_output
  started (none, c) = (none, record c { running = true })
  started (some e, c) = (some e, close_output (record_failure e c.failure c))

  abbrev pub primed : Option E → Collector F P E → Option E × Collector F P E
  primed (some e) c = (some e, c)
  primed none c = sample_once c

  -- `start`, once the file is open, and the error that it raises.
  unfoldable pub start : Collector F P E → Option E × Collector F P E
  unfolding started sample_once
  start c = started (primed outcomes.prime_error (record c { is_open = true; lines = [] }))

  unfoldable pub after_round : Option E × Collector F P E → Collector F P E
  unfolding record_failure
  after_round (none, c) = c
  after_round (some e, c) = record (record_failure e c.failure c) {
    stop_event = true;
    running = false;
  }

  -- A round of `_run`: the loop ends once a stop was asked for.
  unfoldable pub run_round : Collector F P E → Collector F P E
  unfolding after_round sample_once
  run_round c =
      if c.running
      then if c.stop_event then record c { running = false } else after_round (sample_once c)
      else c

  -- `self._thread.join()`: the thread comes to the end of its loop, or it goes on without end.
  unfoldable pub join : Collector F P E → Collector F P E
  unfolding run_round
  join c = if c.running && not c.stop_event then record c { blocked = true } else run_round c

  unfoldable pub after_last : Option E × Collector F P E → Collector F P E
  unfolding record_failure
  after_last (none, c) = c
  after_last (some e, c) = record_failure e c.failure c

  unfoldable pub last_sample : Option E → Collector F P E → Collector F P E
  unfolding sample_once after_last
  last_sample (some e) c = c
  last_sample none c = after_last (sample_once c)

  -- What `stop` does once `join` returned: a last sample unless the collector failed.
  unfoldable pub joined : Collector F P E → Collector F P E
  unfolding last_sample close_output
  joined c = if c.blocked then c else close_output (last_sample c.failure c)

  unfoldable pub stop : Collector F P E → Collector F P E
  unfolding join joined
  stop c = if c.is_open then joined (join (record c { stop_event = true })) else c

  abbrev pub perform : Step → Collector F P E → Collector F P E
  perform round c = run_round c
  perform stop_call c = stop c

  unfoldable pub perform_all : List Step → Collector F P E → Collector F P E
  unfolding run_round stop
  perform_all [] c = c
  perform_all (s ∷ steps) c = perform_all steps (perform s c)
