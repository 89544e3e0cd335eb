-- ===== src/Metrics/Examples.antt =====
-- A collector whose second reading fails, over numbers as floats.
use morphling.Prelude.{
  ℕ, ◌+◌, ◌-◌, ◌/◌, ◌≡◌, refl, ◌⊎◌, none, some, List, [], ◌∷◌, ltb, if◌then◌else◌,
}
use morphling.Prelude.Int.{pos, pos_part, ◌+ℤ◌}
use morphling.Str.{Str, codes, str_leb}
use morphling.Py.{Error, raise, ok}
use morphling.Dict.{lookup, put, str_key}
use morphling.Sort.{sort}
use morphling.Metrics.Phases.{Clock, Event, track, record_all, new_recorder, snapshot}
use morphling.Metrics.Recorded.{named, count_of, duration_of, last_of, snapshot-record_all}
use morphling.Metrics.Nics.{aggregate_nic_counters}
use morphling.Metrics.Ends.{IsClosed, stop_ends}
use morphling.Metrics.{
  MetricReading, FloatOps, Outcomes, Step, round, stop_call, fresh, start, perform_all,
}
use morphling.Metrics.Records.{IsLive, HasFailed, perform_all-EndsWith}

abbrev ops : FloatOps ℕ
ops = record {
  zero_rate = 0;
  is_positive = λ t. ltb 0 t;
  minus = λ a b. a - b;
  per = λ n t. pos_part n / t;
}

abbrev reading : MetricReading ℕ
reading = record {
  timestamp_unix_s = 5;
  monotonic_s = 5;
  process_cpu_percent = 0;
  rss_bytes = pos 100;
  nic = record { bytes_sent = pos 0; bytes_recv = pos 0 };
  nic_names = [];
}

abbrev outcomes : Outcomes ℕ ℕ ℕ
outcomes = record {
  prime_error = none;
  reads = λ i. if ltb i 1 then some reading else none;
  read_errors = λ i. i;
  snapshots = λ i. 0;
  write_errors = λ i. none;
}

abbrev steps : List Step
steps = round ∷ round ∷ stop_call ∷ []

perform_all-EndsWith_example :
    IsLive ops outcomes (perform_all ops outcomes steps (start ops outcomes (fresh ops outcomes)).1)
    ⊎ HasFailed ops outcomes
        (perform_all ops outcomes steps (start ops outcomes (fresh ops outcomes)).1)
perform_all-EndsWith_example = perform_all-EndsWith ops outcomes steps

stop_ends_example : IsClosed ops outcomes (
    perform_all ops outcomes
      (round ∷ (stop_call ∷ round ∷ []))
      (start ops outcomes (fresh ops outcomes)).1)
stop_ends_example = stop_ends ops outcomes (round ∷ []) (round ∷ [])

abbrev clock : Clock ℕ
clock = record { zero_time = 0; plus = λ a b. a + b; minus = λ a b. a - b }

abbrev event : Str → ℕ → ℕ → Event ℕ
event name duration now = record {
  name = name;
  duration_seconds = duration;
  timestamp_unix_s = now;
}

abbrev events : List (Event ℕ)
events =
    event (codes "forward") 3 10 ∷ event (codes "backward") 5 15 ∷ event (codes "forward") 4 19 ∷ []

snapshot-record_all_example :
    (lookup (codes "forward") (snapshot clock (record_all clock events (new_recorder clock))).counts
      ≡ count_of clock (named clock (codes "forward") events))
    × (lookup
          (codes "forward")
          (snapshot clock (record_all clock events (new_recorder clock))).durations_seconds
        ≡ duration_of clock (named clock (codes "forward") events))
    × (lookup
          (codes "forward")
          (snapshot clock (record_all clock events (new_recorder clock))).last_timestamps_unix_s
        ≡ last_of clock (named clock (codes "forward") events))
snapshot-record_all_example = snapshot-record_all clock (codes "forward") events

-- Twice, for 7 in all.
forward_duration : duration_of clock (named clock (codes "forward") events) ≡ some 7
forward_duration = refl

-- A phase is recorded also when its body raises.
track_raising :
    (track clock {A = ℕ}
      (codes "forward")
      (record { started = 1; ended = 4; now = 10 })
      (λ r. (raise Error.value_error, r))
      (new_recorder clock)).1.counts
    ≡ (codes "forward", 1) ∷ []
unfolding track put lookup
track_raising = refl

-- Both interfaces, in the order of their names.
nics_sum :
    aggregate_nic_counters
      ((codes "lo", record { bytes_sent = pos 1; bytes_recv = pos 2 })
        ∷ (codes "eth", record { bytes_sent = pos 10; bytes_recv = pos 20 })
        ∷ [])
      none
    ≡ ok (record {
      nic_names = codes "eth" ∷ codes "lo" ∷ [];
      counters = record { bytes_sent = pos 11; bytes_recv = pos 22 };
    })
unfolding aggregate_nic_counters sort str_leb lookup ◌+ℤ◌
nics_sum = refl
