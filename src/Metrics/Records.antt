-- ===== src/Metrics/Records.antt =====
-- What the output file of a collector holds.
use mathlib.Core.Path.{subst}
use morphling.Prelude.{
  ◌+◌, ◌≡◌, refl, sym, ◌∙◌, true, false, ◌⊎◌, inl, inr, Option, none, some, List, [], ◌∷◌, ◌++◌,
  All, All-append, if_ind, Bool, if◌then◌else◌,
}
use morphling.Metrics.{
  Line, sample, terminal_error, MetricReading, MetricsSample, FloatOps, Outcomes, Collector, Step,
  round, stop_call, fresh, write_after, write, sample_read, sample_once, record_failure,
  close_output, started, primed, start, after_round, run_round, after_last, last_sample, join,
  joined, stop, perform_all,
}

module _ {F P E : Type 0} (ops : FloatOps F) (outcomes : Outcomes F P E) where
  abbrev pub IsSample : Line F P E → Type 0
  IsSample (sample s) = Unit
  IsSample (terminal_error e) = ⊥

  abbrev pub AreSamples : List (Line F P E) → Type 0
  AreSamples = All IsSample

  -- Samples, and then possibly the one error.
  abbrev pub EndsWith : E → List (Line F P E) → Type 0
  EndsWith e lines =
      AreSamples lines
      ⊎ ((samples : List (Line F P E)) × AreSamples samples
          × (lines ≡ samples ++ terminal_error e ∷ []))

  -- A collector that has not failed has samples only.
  abbrev pub IsLive : Collector F P E → Type 0
  IsLive c = AreSamples c.lines × (c.failure ≡ none)

  abbrev pub HasFailed : Collector F P E → Type 0
  HasFailed c = (e : E) × (c.failure ≡ some e) × EndsWith e c.lines

  -- One that has failed has no running thread.
  abbrev pub IsSound : Collector F P E → Type 0
  IsSound c = IsLive c ⊎ (HasFailed c × (c.running ≡ false))

  write_after-IsLive :
      (o : Option (E × Bool)) (s : MetricsSample F P) (c : Collector F P E)
      → IsLive c
      → IsLive (write_after ops outcomes o (sample s) c).1
  unfolding write_after
  write_after-IsLive (some (e, false)) s c l = l
  write_after-IsLive (some (e, true)) s c l =
      (All-append IsSample c.lines (sample s ∷ []) l.0 (tt, tt), l.1)
  write_after-IsLive none s c l = (All-append IsSample c.lines (sample s ∷ []) l.0 (tt, tt), l.1)

  write-IsLive :
      (s : MetricsSample F P) (c : Collector F P E)
      → IsLive c
      → IsLive (write ops outcomes (sample s) c).1
  unfolding write
  write-IsLive s c l =
      if_ind (λ (q : Option E × Collector F P E). IsLive q.1) c.is_open
        (λ _. write_after-IsLive (outcomes.write_errors c.write_calls) s c l) (λ _. l)

  sample_once-IsLive : (c : Collector F P E) → IsLive c → IsLive (sample_once ops outcomes c).1
  unfolding sample_once sample_read
  sample_once-IsLive c l = go (outcomes.reads c.read_calls)
    where
      go : (o : Option (MetricReading F)) → IsLive (sample_read ops outcomes o c).1
      go none = l
      go (some reading) =
          write-IsLive _ (record c { read_calls = c.read_calls + 1; previous = some reading }) l

  write_after-HasFailed :
      (o : Option (E × Bool)) (e : E) (c : Collector F P E)
      → AreSamples c.lines
      → c.failure ≡ some e
      → HasFailed (write_after ops outcomes o (terminal_error e) c).1
  unfolding write_after
  write_after-HasFailed (some (f, false)) e c l k = (e, k, inl l)
  write_after-HasFailed (some (f, true)) e c l k = (e, k, inr (c.lines, l, refl))
  write_after-HasFailed none e c l k = (e, k, inr (c.lines, l, refl))

  -- Recording the first failure ends the records.
  record_failure-HasFailed :
      (e : E) (c : Collector F P E)
      → IsLive c
      → HasFailed (record_failure ops outcomes e c.failure c)
  unfolding record_failure write
  record_failure-HasFailed e c (l, k) =
      subst (λ o. HasFailed (record_failure ops outcomes e o c)) (sym k) first
    where
      first : HasFailed (record_failure ops outcomes e none c)
      first =
          if_ind (λ (q : Option E × Collector F P E). HasFailed q.1) c.is_open
            (λ _.
              write_after-HasFailed (outcomes.write_errors c.write_calls) e
                (record c { failure = some e }) l refl)
            (λ _. (e, refl, inl l))

  -- Whether the thread runs, writing does not change.
  write-running :
      (line : Line F P E) (c : Collector F P E) → (write ops outcomes line c).1.running ≡ c.running
  unfolding write write_after
  write-running line c =
      if_ind (λ (q : Option E × Collector F P E). q.1.running ≡ c.running) c.is_open
        (λ _. go (outcomes.write_errors c.write_calls)) (λ _. refl)
    where
      go : (o : Option (E × Bool)) → (write_after ops outcomes o line c).1.running ≡ c.running
      go none = refl
      go (some (e, false)) = refl
      go (some (e, true)) = refl

  primed-running :
      (o : Option E) (c : Collector F P E) → (primed ops outcomes o c).1.running ≡ c.running
  unfolding sample_once sample_read
  primed-running (some e) c = refl
  primed-running none c = go (outcomes.reads c.read_calls)
    where
      go : (o : Option (MetricReading F)) → (sample_read ops outcomes o c).1.running ≡ c.running
      go none = refl
      go (some reading) =
          write-running _ (record c { read_calls = c.read_calls + 1; previous = some reading })

  record_failure-running :
      (e : E) (o : Option E) (c : Collector F P E)
      → (record_failure ops outcomes e o c).running ≡ c.running
  unfolding record_failure
  record_failure-running e none c = write-running (terminal_error e) (record c { failure = some e })
  record_failure-running e (some f) c = refl

  after_round-IsSound :
      (p : Option E × Collector F P E) → IsLive p.1 → IsSound (after_round ops outcomes p)
  unfolding after_round
  after_round-IsSound (none, c) l = inl l
  after_round-IsSound (some e, c) l = inr (record_failure-HasFailed e c l, refl)

  run_round-IsSound : (c : Collector F P E) → IsSound c → IsSound (run_round ops outcomes c)
  unfolding run_round
  run_round-IsSound c s = if_ind IsSound c.running (λ runs. goes_on runs s) (λ _. s)
    where
      goes_on :
          c.running ≡ true
          → IsSound c
          → IsSound (
              if c.stop_event
              then record c { running = false }
              else after_round ops outcomes (sample_once ops outcomes c))
      goes_on runs (inl l) =
          if_ind IsSound c.stop_event (λ _. inl l)
            (λ _. after_round-IsSound (sample_once ops outcomes c) (sample_once-IsLive c l))
      goes_on runs (inr (failed, ended)) = cc

  -- Once a stop was asked for, the thread comes to its end.
  pub join_ends :
      (c : Collector F P E)
      → join ops outcomes (record c { stop_event = true })
        ≡ record c { stop_event = true; running = false }
  unfolding join run_round
  join_ends c = ends c.running
    where
      ends :
          (b : Bool)
          → join ops outcomes (record c { stop_event = true; running = b })
            ≡ record c { stop_event = true; running = false }
      ends true = refl
      ends false = refl

  stop-IsSound : (c : Collector F P E) → IsSound c → IsSound (stop ops outcomes c)
  unfolding stop joined close_output after_last last_sample
  stop-IsSound c s =
      if_ind IsSound c.is_open
        (λ _.
          subst (λ d. IsSound (joined ops outcomes d)) (sym (join_ends c))
            (if_ind IsSound c.blocked (λ _. still s) (λ _. closed c.failure refl s)))
        (λ _. s)
    where
      halted : Collector F P E
      halted = record c { stop_event = true; running = false }

      still : IsSound c → IsSound halted
      still (inl l) = inl l
      still (inr (failed, ended)) = inr (failed, refl)

      after :
          (p : Option E × Collector F P E)
          → IsLive p.1
          → p.1.running ≡ false
          → IsSound (record (after_last ops outcomes p) { is_open = false })
      after (none, d) l ended = inl l
      after (some e, d) l ended =
          inr (record_failure-HasFailed e d l, record_failure-running e d.failure d ∙ ended)

      closed :
          (o : Option E)
          → c.failure ≡ o
          → IsSound c
          → IsSound (record (last_sample ops outcomes o halted) { is_open = false })
      closed none k (inl l) =
          after (sample_once ops outcomes halted) (sample_once-IsLive halted l)
            (primed-running none halted)
      closed none k (inr ((e, failed, ends), ended)) = cc
      closed (some f) k (inl (l, none_yet)) = cc
      closed (some f) k (inr (failed, ended)) = inr (failed, refl)

  perform_all-IsSound :
      (steps : List Step) (c : Collector F P E)
      → IsSound c
      → IsSound (perform_all ops outcomes steps c)
  unfolding perform_all
  perform_all-IsSound [] c s = s
  perform_all-IsSound (round ∷ steps) c s =
      perform_all-IsSound steps (run_round ops outcomes c) (run_round-IsSound c s)
  perform_all-IsSound (stop_call ∷ steps) c s =
      perform_all-IsSound steps (stop ops outcomes c) (stop-IsSound c s)

  start-IsSound : IsSound (start ops outcomes (fresh ops outcomes)).1
  unfolding start started close_output
  start-IsSound =
      ended (primed ops outcomes outcomes.prime_error opened) (ready outcomes.prime_error)
        (primed-running outcomes.prime_error opened)
    where
      opened : Collector F P E
      opened = record (fresh ops outcomes) { is_open = true; lines = [] }

      ready : (o : Option E) → IsLive (primed ops outcomes o opened).1
      ready none = sample_once-IsLive opened (tt, refl)
      ready (some e) = (tt, refl)

      ended :
          (p : Option E × Collector F P E)
          → IsLive p.1
          → p.1.running ≡ false
          → IsSound (started ops outcomes p).1
      ended (none, c) l still = inl l
      ended (some e, c) l still =
          inr (record_failure-HasFailed e c l, record_failure-running e c.failure c ∙ still)

  -- Whatever the reader and the file do, after the start and any rounds of the thread and calls of
  -- `stop` the file holds samples only while the collector has not failed, and else samples, or
  -- samples and then one terminal error: that of the failure, behind which nothing is written.
  pub perform_all-EndsWith :
      (steps : List Step)
      → IsLive (perform_all ops outcomes steps (start ops outcomes (fresh ops outcomes)).1)
        ⊎ HasFailed (perform_all ops outcomes steps (start ops outcomes (fresh ops outcomes)).1)
  perform_all-EndsWith steps =
      elim (perform_all-IsSound steps (start ops outcomes (fresh ops outcomes)).1 start-IsSound) [
        | inl live ↦ inl live
        | inr dead ↦ inr dead.0
      ]
