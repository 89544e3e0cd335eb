-- ===== src/Batch.antt =====
-- scripts/compute_batch_runtime.py: the runtime of a batch from a log of virtual times and a
-- manifest of dispatched GEMMs. This file reads the log.
pub mod Entries
pub mod Collective
pub mod Estimate
pub mod Phases
pub mod Tables
pub mod Totals
pub mod Runtime
pub mod Compute
pub mod Command
pub mod Run
pub mod Levels
pub mod Overlay
pub mod Pipeline
pub mod Groups
pub mod Once
pub mod Walltime
pub mod Durations
pub mod Measured
mod Examples
use morphling.Prelude.{
  ℕ, ◌≡◌, Bool, true, false, not, ◌&&◌, ◌||◌, Option, none, some, List, [], ◌∷◌, ◌++◌,
  if◌then◌else◌,
}
use morphling.Prelude.Int.{ℤ, pos, negsuc}
use morphling.Str.{Str, codes, is_empty, str_eq, strip, starts_with, split, upper}
use morphling.Py.{Error, Result, raise, ok, ◌>>=◌}
use morphling.Float.{Float}
use morphling.Json.{text_to_int}

pub record VtimeEvent : Type 0 where
  pub timestamp_us : ℤ
  pub device_id : ℤ
  pub gemm_id : ℤ
  pub phase : Str
  pub event : Str
  pub vt_start_us : ℤ
  pub vt_end_us : ℤ
  pub vt_duration_us : ℤ

-- `phase in PHASES`
unfoldable pub is_phase : Str → Bool
is_phase s =
    str_eq s (codes "SEND")
    || (str_eq s (codes "DOWNLOAD")
        || (str_eq s (codes "COMPUTE")
            || (str_eq s (codes "UPLOAD") || str_eq s (codes "RECEIVE"))))

module _ {F : Type 0} (f : Float F) where
  -- `_to_int` of a field, with the default 0.
  abbrev field_int : Str → Result ℤ
  field_int s = text_to_int f s (pos 0)

  -- The fields of a line, by whether there is one for the GEMM.
  unfoldable pub fields_9 : Str → Str → Str → Str → Str → Str → Str → Str → Result VtimeEvent
  fields_9 timestamp device gemm phase event start end_us duration = do
    timestamp_us ← field_int timestamp
    device_id ← field_int device
    gemm_id ← text_to_int f gemm (negsuc 0)
    vt_start_us ← field_int start
    vt_end_us ← field_int end_us
    vt_duration_us ← field_int duration
    ok record {
      timestamp_us = timestamp_us;
      device_id = device_id;
      gemm_id = gemm_id;
      phase = upper (strip phase);
      event = upper (strip event);
      vt_start_us = vt_start_us;
      vt_end_us = vt_end_us;
      vt_duration_us = vt_duration_us;
    }

  unfoldable pub fields_8 : Str → Str → Str → Str → Str → Str → Str → Result VtimeEvent
  fields_8 timestamp device phase event start end_us duration = do
    timestamp_us ← field_int timestamp
    device_id ← field_int device
    vt_start_us ← field_int start
    vt_end_us ← field_int end_us
    vt_duration_us ← field_int duration
    ok record {
      timestamp_us = timestamp_us;
      device_id = device_id;
      gemm_id = negsuc 0;
      phase = upper (strip phase);
      event = upper (strip event);
      vt_start_us = vt_start_us;
      vt_end_us = vt_end_us;
      vt_duration_us = vt_duration_us;
    }

  -- What the `except` clause makes of any exception.
  abbrev or_value_error {ℓ} : {A : Type ℓ} → Result A → Result A
  or_value_error (raise _) = raise Error.value_error
  or_value_error (ok a) = ok a

  -- A line with another number of fields is passed over.
  unfoldable pub parse_fields : List Str → Result (Option VtimeEvent)
  unfolding fields_9 fields_8
  parse_fields (tag ∷ a ∷ b ∷ c ∷ d ∷ e ∷ g ∷ h ∷ []) = do
    event ← or_value_error (fields_8 a b c d e g h)
    ok (some event)
  parse_fields (tag ∷ a ∷ b ∷ c ∷ d ∷ e ∷ g ∷ h ∷ i ∷ []) = do
    event ← or_value_error (fields_9 a b c d e g h i)
    ok (some event)
  parse_fields _ = ok none

  -- The events of type END whose phase is known are kept.
  unfoldable pub kept : Option VtimeEvent → List VtimeEvent
  unfolding is_phase
  kept none = []
  kept (some ev) =
      if not (str_eq ev.event (codes "END"))
      then []
      else if not (is_phase ev.phase)
      then []
      else ev ∷ []

  unfoldable pub parse_line : Str → Result (List VtimeEvent)
  unfolding parse_fields kept
  parse_line line =
      let stripped = strip line in
      let parsed : Result (List VtimeEvent) =
        parse_fields (split b',' stripped) >>= λ event. ok (kept event) in
      if is_empty stripped || not (starts_with stripped (codes "VTIME")) then ok [] else parsed

  unfoldable pub parse_vtime_log : List Str → Result (List VtimeEvent)
  unfolding parse_line
  parse_vtime_log [] = ok []
  parse_vtime_log (line ∷ lines) = do
    events ← parse_line line
    rest ← parse_vtime_log lines
    ok (events ++ rest)
