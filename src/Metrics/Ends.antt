-- ===== src/Metrics/Ends.antt =====
-- A collector that is stopped has closed its output, and its thread has ended.
use mathlib.Core.Path.{subst}
use morphling.Metrics.Records.{join_ends}
use morphling.Prelude.{
  Bool, sym, ◌+◌, ◌≡◌, refl, ◌∙◌, true, false, Option, none, some, List, [], ◌∷◌, ◌++◌, if_ind,
}
use morphling.Metrics.{
  Line, terminal_error, MetricReading, FloatOps, Outcomes, Collector, Step, round, stop_call, fresh,
  write_after, write, sample_read, sample_once, record_failure, close_output, started, primed,
  joined, last_sample, after_last, start, after_round, run_round, stop, perform_all,
}

module _ {F P E : Type 0} (ops : FloatOps F) (outcomes : Outcomes F P E) where
  abbrev pub IsClosed : Collector F P E → Type 0
  IsClosed c = (c.is_open ≡ false) × (c.running ≡ false) × (c.blocked ≡ false)

  -- The thread runs only while the output is open, and nothing waits for it without end.
  abbrev IsTied : Collector F P E → Type 0
  IsTied c = (c.is_open ≡ false → c.running ≡ false) × (c.blocked ≡ false)

  abbrev SameFlags : Collector F P E → Collector F P E → Type 0
  SameFlags c d = (d.is_open ≡ c.is_open) × (d.running ≡ c.running) × (d.blocked ≡ c.blocked)

  write_flags :
      (line : Line F P E) (c : Collector F P E) → SameFlags c (write ops outcomes line c).1
  unfolding write write_after
  write_flags line c =
      if_ind (λ (q : Option E × Collector F P E). SameFlags c q.1) c.is_open
        (λ _. go (outcomes.write_errors c.write_calls)) (λ _. (refl, refl, refl))
    where
      go : (o : Option (E × Bool)) → SameFlags c (write_after ops outcomes o line c).1
      go none = (refl, refl, refl)
      go (some (e, false)) = (refl, refl, refl)
      go (some (e, true)) = (refl, refl, refl)

  sample_flags : (c : Collector F P E) → SameFlags c (sample_once ops outcomes c).1
  unfolding sample_once sample_read
  sample_flags c = go (outcomes.reads c.read_calls)
    where
      go : (o : Option (MetricReading F)) → SameFlags c (sample_read ops outcomes o c).1
      go none = (refl, refl, refl)
      go (some reading) =
          write_flags _ (record c { read_calls = c.read_calls + 1; previous = some reading })

  failure_flags :
      (e : E) (o : Option E) (c : Collector F P E) → SameFlags c (record_failure ops outcomes e o c)
  unfolding record_failure
  failure_flags e none c = write_flags (terminal_error e) (record c { failure = some e })
  failure_flags e (some f) c = (refl, refl, refl)

  run_round-IsTied : (c : Collector F P E) → IsTied c → IsTied (run_round ops outcomes c)
  unfolding run_round after_round
  run_round-IsTied c tied =
      if_ind IsTied c.running
        (λ _.
          if_ind IsTied c.stop_event (λ _. ((λ _. refl), tied.1))
            (λ _. go (sample_once ops outcomes c) (sample_flags c)))
        (λ _. tied)
    where
      go : (p : Option E × Collector F P E) → SameFlags c p.1 → IsTied (after_round ops outcomes p)
      go (none, d) (same, runs, waits) =
          ((λ closed. runs ∙ tied.0 (let h : c.is_open ≡ false = cc in h)), waits ∙ tied.1)
      go (some e, d) (same, runs, waits) =
          ((λ closed. refl), (failure_flags e d.failure d).2 ∙ waits ∙ tied.1)

  -- A last sample changes no flag.
  last_flags : (o : Option E) (c : Collector F P E) → SameFlags c (last_sample ops outcomes o c)
  unfolding last_sample after_last
  last_flags (some e) c = (refl, refl, refl)
  last_flags none c = go (sample_once ops outcomes c) (sample_flags c)
    where
      go :
          (p : Option E × Collector F P E)
          → SameFlags c p.1
          → SameFlags c (after_last ops outcomes p)
      go (none, d) flags = flags
      go (some e, d) (same, runs, waits) =
          let (same', runs', waits') = failure_flags e d.failure d in
          (same' ∙ same, runs' ∙ runs, waits' ∙ waits)

  stop-IsClosed : (c : Collector F P E) → IsTied c → IsClosed (stop ops outcomes c)
  unfolding stop joined close_output
  stop-IsClosed c tied =
      if_ind IsClosed c.is_open
        (λ _.
          subst (λ d. IsClosed (joined ops outcomes d)) (sym (join_ends ops outcomes c))
            (if_ind IsClosed c.blocked (λ waits. absurd cc)
              (λ _.
                let (same, runs, waits) = last_flags c.failure halted in
                (refl, runs, waits ∙ tied.1))))
        (λ closed. (closed, tied.0 closed, tied.1))
    where
      halted : Collector F P E
      halted = record c { stop_event = true; running = false }

  start-IsTied : IsTied (start ops outcomes (fresh ops outcomes)).1
  unfolding start started close_output
  start-IsTied = go (primed ops outcomes outcomes.prime_error opened) (flags outcomes.prime_error)
    where
      opened : Collector F P E
      opened = record (fresh ops outcomes) { is_open = true; lines = [] }

      flags : (o : Option E) → SameFlags opened (primed ops outcomes o opened).1
      flags none = sample_flags opened
      flags (some e) = (refl, refl, refl)

      go :
          (p : Option E × Collector F P E)
          → SameFlags opened p.1
          → IsTied (started ops outcomes p).1
      go (none, c) (same, runs, waits) = ((λ closed. cc), waits)
      go (some e, c) (same, runs, waits) =
          let (same', runs', waits') = failure_flags e c.failure c in
          ((λ closed. runs' ∙ runs), waits' ∙ waits)

  -- Nothing happens to a closed collector.
  perform_all-IsClosed :
      (steps : List Step) (c : Collector F P E)
      → IsClosed c
      → IsClosed (perform_all ops outcomes steps c)
  unfolding perform_all run_round stop
  perform_all-IsClosed [] c closed = closed
  perform_all-IsClosed (round ∷ steps) c (shut, ended, waits) =
      perform_all-IsClosed steps (run_round ops outcomes c) (
        if_ind IsClosed c.running (λ h. absurd (let halted : false ≡ true = rw ended at h in cc))
          (λ _. (shut, ended, waits)))
  perform_all-IsClosed (stop_call ∷ steps) c (shut, ended, waits) =
      perform_all-IsClosed steps (stop ops outcomes c) (
        if_ind IsClosed c.is_open (λ h. absurd (let opened : false ≡ true = rw shut at h in cc))
          (λ _. (shut, ended, waits)))

  stopped :
      (before after : List Step) (c : Collector F P E)
      → IsTied c
      → IsClosed (perform_all ops outcomes (before ++ stop_call ∷ after) c)
  unfolding perform_all
  stopped [] after c tied = perform_all-IsClosed after (stop ops outcomes c) (stop-IsClosed c tied)
  stopped (round ∷ before) after c tied =
      stopped before after (run_round ops outcomes c) (run_round-IsTied c tied)
  stopped (stop_call ∷ before) after c tied =
      let (shut, ended, waits) = stop-IsClosed c tied in
      stopped before after (stop ops outcomes c) ((λ _. ended), waits)

  -- Where each read and each write returns or raises, a collector on which `stop` was called at some
  -- time after its start, whatever its thread did before, has closed its output, its thread has
  -- ended, and no `stop` waits for the thread without end; all of this stays so.
  pub stop_ends :
      (before after : List Step)
      → IsClosed (
          perform_all ops outcomes
            (before ++ stop_call ∷ after)
            (start ops outcomes (fresh ops outcomes)).1)
  stop_ends before after =
      stopped before after (start ops outcomes (fresh ops outcomes)).1 start-IsTied
