-- ===== src/Batch/Totals.antt =====
-- The second part of compute_batch_runtime: times in milliseconds by device, by level and by
-- stage, and the collectives. The sums by stage that are not read again are left out.
use morphling.Prelude.{Bool, not, Option, none, some, List, [], ◌∷◌, ◌++◌, if◌then◌else◌}
use morphling.Prelude.Int.{ℤ}
use morphling.Str.{Str, codes, str_eq}
use morphling.Py.{Result, ok, ◌>>=◌}
use morphling.Dict.{Eq, lookup, put, int_eq, pair_eq, str_key}
use morphling.Shapes.Shards.{contains}
use morphling.Float.{Float, max_of, literal}
use morphling.Json.{Json}
use morphling.Batch.Entries.{Entry, Profile}
use morphling.Batch.Collective.{or_nil, is_allreduce, GroupKey, collective_group_key}
use morphling.Batch.Estimate.{estimate_allreduce_ms}
use morphling.Batch.Phases.{PhaseKey, PhaseMap}
use morphling.Batch.Tables.{PhaseTable, or_zero, add_at_both}

pub record DeviceTime (F : Type 0) : Type 0 where
  pub compute_ms : F
  pub network_ms : F
  pub total_ms : F

pub record Totals (F : Type 0) : Type 0 where
  pub per_device : List (ℤ × DeviceTime F)
  pub level_device : List (ℤ × List (ℤ × F))
  pub stage_device : List (ℤ × List (ℤ × F))
  pub compute_time_ms : F
  pub network_time_ms : F
  pub allreduce_time_ms : F

module _ {F : Type 0} (f : Float F) where
  open f use {zero, plus, over, at_most}

  abbrev pub nothing : Totals F
  nothing = record {
    per_device = [];
    level_device = [];
    stage_device = [];
    compute_time_ms = zero;
    network_time_ms = zero;
    allreduce_time_ms = zero;
  }

  abbrev or_new : Option (DeviceTime F) → DeviceTime F
  or_new (some t) = t
  or_new none = record { compute_ms = zero; network_ms = zero; total_ms = zero }

  abbrev add_device : ℤ → F → F → F → List (ℤ × DeviceTime F) → List (ℤ × DeviceTime F)
  add_device device compute network total d =
      let t = or_new (lookup device d) in
      put device
        record {
          compute_ms = plus t.compute_ms compute;
          network_ms = plus t.network_ms network;
          total_ms = plus t.total_ms total;
        }
        d

  abbrev add_network : ℤ → F → List (ℤ × DeviceTime F) → List (ℤ × DeviceTime F)
  add_network device ms d =
      let t = or_new (lookup device d) in
      put device (record t { network_ms = plus t.network_ms ms; total_ms = plus t.total_ms ms }) d

  -- The time of one key of the table, spent on computing and on the network.
  unfoldable pub add_time : ℤ → ℤ → ℤ → F → F → F → Totals F → Totals F
  add_time level device stage compute network total t = record t {
    per_device = add_device device compute network total t.per_device;
    level_device = add_at_both f level device total t.level_device;
    stage_device = add_at_both f stage device total t.stage_device;
    compute_time_ms = plus t.compute_time_ms compute;
    network_time_ms = plus t.network_time_ms network;
  }

  -- `phase_map.get(phase, 0.0) / 1000.0`
  abbrev phase_ms : Str → PhaseMap F → F
  phase_ms phase phases = over (or_zero f (lookup phase phases)) (literal f 1000)

  -- The body of the loop over the table, with `send_ms` to `recv_ms`.
  unfoldable pub add_ms : Bool → PhaseKey → F → F → F → F → F → Totals F → Totals F
  unfolding add_time
  add_ms cleave ((level, (device, gemm)), (ptype, (stage, local))) send dl comp ul recv t =
      let xfer = plus (plus (plus send dl) ul) recv in
      let effective = plus (plus (max_of f (max_of f dl comp) ul) send) recv in
      if cleave
      then if not (str_eq ptype (codes "cleave_tp"))
        then t
        else add_time level device stage comp xfer effective t
      else if str_eq ptype (codes "pp_local")
      then add_time level device stage comp xfer (plus comp xfer) t
      else if str_eq ptype (codes "pp_boundary")
      then add_time level device stage zero (plus comp xfer) (plus zero (plus comp xfer)) t
      else add_time level device stage zero zero (plus zero zero) t

  unfoldable pub add_table : Bool → PhaseTable F → Totals F → Totals F
  unfolding add_ms
  add_table cleave [] t = t
  add_table cleave ((key, phases) ∷ table) t = add_table cleave table (
      add_ms cleave key (phase_ms (codes "SEND") phases) (phase_ms (codes "DOWNLOAD") phases)
        (phase_ms (codes "COMPUTE") phases) (phase_ms (codes "UPLOAD") phases)
        (phase_ms (codes "RECEIVE") phases) t)

  -- The time of a collective on the device of one of its entries, and in the wall time if the
  -- group was not seen before.
  unfoldable pub add_collective : Entry F → F → Bool → Totals F → Totals F
  add_collective e ar_ms seen t = record t {
    per_device = add_network e.device_id ar_ms t.per_device;
    level_device = add_at_both f e.level e.device_id ar_ms t.level_device;
    stage_device = add_at_both f e.stage_id e.device_id ar_ms t.stage_device;
    allreduce_time_ms = if seen then t.allreduce_time_ms else plus t.allreduce_time_ms ar_ms;
  }

-- The loop over the entries that are collectives, with the groups seen so far.
module _ {F K : Type 0} ⦃key : Eq K⦄ (name_of : Json F → Result K) (f : Float F)
    (groups : List (GroupKey K × List ℤ)) (profiles : List (ℤ × Profile F)) (bytes : F)
    (bandwidth_bps : Option F) where
  open f use {zero, at_most}

  unfoldable pub collect :
      Entry F → GroupKey K → F → List (GroupKey K) × Totals F → List (GroupKey K) × Totals F
  unfolding contains add_collective
  collect e k ar_ms (seen, t) = if at_most ar_ms zero then (seen, t) else (
    (if contains k seen then seen else seen ++ k ∷ []),
    add_collective f e ar_ms (contains k seen) t,
  )

  unfoldable pub add_collectives :
      List (Entry F) → List (GroupKey K) × Totals F → Result (List (GroupKey K) × Totals F)
  unfolding collect
  add_collectives [] walk = ok walk
  add_collectives (e ∷ entries) walk =
      let rest = add_collectives entries in
      let counted : Result (List (GroupKey K) × Totals F) = do
        k ← collective_group_key name_of e
        ar_ms ← estimate_allreduce_ms f e (or_nil (lookup k groups)) profiles bytes bandwidth_bps
        rest (collect e k ar_ms walk)
      in if not (is_allreduce e.parallelism_type) then rest walk else counted
