-- ===== src/Batch/Run.antt =====
-- The stages of a run of compute_batch_runtime that returned.
use morphling.Prelude.{◌≡◌, List, [], ◌∷◌}
use morphling.Str.{Str, lower}
use morphling.Py.{Result, ok, ◌>>=◌, >>=-eq-ok}
use morphling.Dict.{Eq}
use morphling.Float.{Float}
use morphling.Json.{Json, Object}
use morphling.Batch.Entries.{Entry, extract_manifest_entries, normalize_all}
use morphling.Batch.Totals.{Totals}
use morphling.Batch.Runtime.{BatchRuntimeResult, optimizer_tail, total_runtime}
use morphling.Batch.Compute.{Arguments, totals_of, result_of, runtime_of, compute_batch_runtime}

module _ {F K : Type 0} ⦃key : Eq K⦄ (name_of : Json F → Result K) (f : Float F)
    (str_of : Json F → Str) (a : Arguments F) (manifest : Json F) where
  -- The entries of the manifest, of which there are some, the totals, and the runtime and bubble.
  pub record Run (r : BatchRuntimeResult F) : Type 0 where
    pub raws : List (Object F)
    pub first : Entry F
    pub entries : List (Entry F)
    pub totals : Totals F
    pub times : F × F
    pub located : extract_manifest_entries manifest ≡ ok raws
    pub normalized : normalize_all f str_of raws ≡ ok (first ∷ entries)
    pub added : totals_of name_of f str_of a manifest first entries ≡ ok totals
    pub timed :
        total_runtime f
          (lower a.baseline_type)
          manifest
          (first ∷ entries)
          a.pp_size
          a.num_microbatches
          (optimizer_tail f manifest a.optimizer_tail_ms)
          totals
        ≡ ok times
    pub result :
        result_of name_of f str_of a manifest
          (optimizer_tail f manifest a.optimizer_tail_ms)
          times
          totals
        ≡ r

  runtime_of-Run :
      (raws : List (Object F)) (entries : List (Entry F)) {r : BatchRuntimeResult F}
      → extract_manifest_entries manifest ≡ ok raws
      → normalize_all f str_of raws ≡ ok entries
      → runtime_of name_of f str_of a manifest entries ≡ ok r
      → Run r
  unfolding runtime_of
  runtime_of-Run raws [] located normalized returned = absurd cc
  runtime_of-Run raws (first ∷ entries) located normalized returned =
      let tail : F = optimizer_tail f manifest a.optimizer_tail_ms in
      let (t, added, rest) =
        >>=-eq-ok (totals_of name_of f str_of a manifest first entries)
          (λ t.
            total_runtime f (lower a.baseline_type) manifest (first ∷ entries) a.pp_size
              a.num_microbatches tail t
            >>= λ times. ok (result_of name_of f str_of a manifest tail times t))
          returned in
      let (times, timed, last) =
        >>=-eq-ok
          (total_runtime f (lower a.baseline_type) manifest (first ∷ entries) a.pp_size
            a.num_microbatches tail t)
          (λ times. ok (result_of name_of f str_of a manifest tail times t)) rest in
      record {
        raws = raws;
        first = first;
        entries = entries;
        totals = t;
        times = times;
        located = located;
        normalized = normalized;
        added = added;
        timed = timed;
        result = cc;
      }

  pub compute_batch_runtime-Run :
      {r : BatchRuntimeResult F} → compute_batch_runtime name_of f str_of a manifest ≡ ok r → Run r
  unfolding compute_batch_runtime
  compute_batch_runtime-Run returned =
      let (raws, located, rest) =
        >>=-eq-ok (extract_manifest_entries manifest)
          (λ raws. normalize_all f str_of raws >>= λ entries.
            runtime_of name_of f str_of a manifest entries)
          returned in
      let (entries, normalized, last) =
        >>=-eq-ok (normalize_all f str_of raws)
          (λ entries. runtime_of name_of f str_of a manifest entries) rest in
      runtime_of-Run raws entries located normalized last
