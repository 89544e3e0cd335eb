-- ===== src/Batch/Command.antt =====
-- _make_output_payload and main, over the files that the arguments name: a path without a file is
-- `none`, a manifest and a device configuration are the values of their JSON.
use morphling.Prelude.{Bool, true, false, Option, none, some, List, [], if◌then◌else◌}
use morphling.Prelude.Int.{ℤ}
use morphling.Str.{Str, codes}
use morphling.Py.{Error, Result, raise, ok, or_raise, ◌>>=◌}
use morphling.Dict.{Eq}
use morphling.Float.{Float, literal}
use morphling.Json.{Json}
use morphling.Batch.{VtimeEvent, parse_vtime_log}
use morphling.Batch.Entries.{load_device_profiles}
use morphling.Batch.Runtime.{BatchRuntimeResult}
use morphling.Batch.Compute.{compute_batch_runtime}

pub record Payload (F : Type 0) : Type 0 where
  pub result : BatchRuntimeResult F
  pub total_runtime_s : F
  pub compute_time_s : F
  pub network_time_s : F
  pub pipeline_bubble_s : F
  pub allreduce_time_s : F
  pub optimizer_tail_s : F
  pub mode : Str
  pub manifest_path : Str
  pub baseline_type : Str

-- The parsed command line; the empty path of a log counts as none.
pub record Command (F : Type 0) : Type 0 where
  pub manifest_path : Str
  pub manifest_file : Option (Json F)
  pub vtime_log : Option (Option (List Str))
  pub device_config : Option (Json F)
  pub baseline_type : Str
  pub pp_size : Option ℤ
  pub num_microbatches : Option ℤ
  pub optimizer_tail_ms : Option F
  pub bytes_per_element : F
  pub allreduce_bandwidth_bps : Option F

abbrev is_given : Option (Option (List Str)) → Bool
is_given none = false
is_given (some _) = true

module _ {F : Type 0} (f : Float F) where
  abbrev seconds : F → F
  seconds ms = f.over ms (literal f 1000)

  unfoldable pub make_output_payload : BatchRuntimeResult F → Bool → Str → Str → Payload F
  make_output_payload result used_vtime_log manifest_path baseline_type = record {
    result = result;
    total_runtime_s = seconds result.total_runtime_ms;
    compute_time_s = seconds result.compute_time_ms;
    network_time_s = seconds result.network_time_ms;
    pipeline_bubble_s = seconds result.pipeline_bubble_ms;
    allreduce_time_s = seconds result.allreduce_time_ms;
    optimizer_tail_s = seconds result.optimizer_tail_ms;
    mode = if used_vtime_log then codes "vtime" else codes "analytical";
    manifest_path = manifest_path;
    baseline_type = baseline_type;
  }

  unfoldable pub load_events : Option (Option (List Str)) → Result (List VtimeEvent)
  load_events none = ok []
  load_events (some none) = raise Error.file_not_found_error
  load_events (some (some lines)) = parse_vtime_log f lines

module _ {F K : Type 0} ⦃key : Eq K⦄ (name_of : Json F → Result K) (f : Float F)
    (str_of : Json F → Str) where
  unfoldable pub main : Command F → Result (Payload F)
  unfolding load_events make_output_payload
  main args = do
    manifest ← or_raise Error.file_not_found_error args.manifest_file
    device_profiles ← load_device_profiles f args.device_config
    events ← load_events f args.vtime_log
    result ←
        compute_batch_runtime name_of f str_of
          record {
            vtime_events = events;
            baseline_type = args.baseline_type;
            pp_size = args.pp_size;
            num_microbatches = args.num_microbatches;
            optimizer_tail_ms = args.optimizer_tail_ms;
            device_profiles = device_profiles;
            bytes_per_element = args.bytes_per_element;
            allreduce_bandwidth_bps = args.allreduce_bandwidth_bps;
            within_batch_trace = none;
          }
          manifest
    ok (
        make_output_payload f result (is_given args.vtime_log) args.manifest_path
          args.baseline_type)
