-- ===== src/Metrics/Phases.antt =====
-- morphling/runtime/coordinator_metrics.py, PhaseRecorder and track_phase. A clock's readings are
-- arguments; the lock makes each `record` and `snapshot` one step.
use morphling.Prelude.{ℕ, ◌+◌, Bool, true, false, Option, none, some, List, [], ◌∷◌}
use morphling.Str.{Str}
use morphling.Py.{Result}
use morphling.Dict.{lookup, put, str_key}

-- `0.0`, the sum and the difference of two floats.
pub record Clock (F : Type 0) : Type 0 where
  pub zero_time : F
  pub plus : F → F → F
  pub minus : F → F → F

pub record PhaseRecorder (F : Type 0) : Type 0 where
  pub counts : List (Str × ℕ)
  pub durations : List (Str × F)
  pub timestamps : List (Str × F)

-- What `snapshot` copies.
pub record PhaseSnapshot (F : Type 0) : Type 0 where
  pub counts : List (Str × ℕ)
  pub durations_seconds : List (Str × F)
  pub last_timestamps_unix_s : List (Str × F)

-- `d.get(k, default)`
abbrev pub get_or : {A : Type 0} → A → Option A → A
get_or default none = default
get_or default (some a) = a

-- The readings that `track` takes: at its start and its end, and the time of the day.
pub record Readings (F : Type 0) : Type 0 where
  pub started : F
  pub ended : F
  pub now : F

module _ {F : Type 0} (clock : Clock F) where
  abbrev pub new_recorder : PhaseRecorder F
  new_recorder = record { counts = []; durations = []; timestamps = [] }

  unfoldable pub record_phase : Str → F → F → PhaseRecorder F → PhaseRecorder F
  record_phase name duration_seconds timestamp_unix_s r = record {
    counts = put name (get_or 0 (lookup name r.counts) + 1) r.counts;
    durations =
        put name (clock.plus (get_or clock.zero_time (lookup name r.durations)) duration_seconds)
          r.durations;
    timestamps = put name timestamp_unix_s r.timestamps;
  }

  -- `with recorder.track(name): body`, where `body` returns or raises.
  unfoldable pub track :
      {A : Type 0}
      → Str
      → Readings F
      → (PhaseRecorder F → Result A × PhaseRecorder F)
      → PhaseRecorder F
      → Result A × PhaseRecorder F
  unfolding record_phase
  track name times body r =
      let (result, r') = body r in
      (result, record_phase name (clock.minus times.ended times.started) times.now r')

  unfoldable pub snapshot : PhaseRecorder F → PhaseSnapshot F
  snapshot r = record {
    counts = r.counts;
    durations_seconds = r.durations;
    last_timestamps_unix_s = r.timestamps;
  }

  -- `with track_phase(recorder, name): body`; without a recorder there is none to change.
  unfoldable pub track_phase :
      {A : Type 0}
      → Bool
      → Str
      → Readings F
      → (PhaseRecorder F → Result A × PhaseRecorder F)
      → PhaseRecorder F
      → Result A × PhaseRecorder F
  unfolding track
  track_phase false name times body r = body r
  track_phase true name times body r = track name times body r

-- A phase that was tracked: its name, and what `record` took.
pub record Event (F : Type 0) : Type 0 where
  pub name : Str
  pub duration_seconds : F
  pub timestamp_unix_s : F

-- Calls of `record`, in their order.
unfoldable pub record_all :
    {F : Type 0} → Clock F → List (Event F) → PhaseRecorder F → PhaseRecorder F
unfolding record_phase
record_all clock [] r = r
record_all clock (e ∷ events) r =
    record_all clock events (record_phase clock e.name e.duration_seconds e.timestamp_unix_s r)
