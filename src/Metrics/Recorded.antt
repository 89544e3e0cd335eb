-- ===== src/Metrics/Recorded.antt =====
-- What a recorder of phases holds, against the list of the phases that were recorded.
use morphling.Prelude.{
  ℕ, ◌+◌, ◌≡◌, refl, ap, ◌∙◌, true, false, Bool-cases, inl, inr, Option, none, some, List, [], ◌∷◌,
  length, arith, if◌then◌else◌,
}
use morphling.Str.{Str, str_eq, str_eq_iff}
use morphling.Dict.{lookup, put, lookup-put, str_key}
use morphling.Metrics.Phases.{
  Clock, Event, PhaseRecorder, get_or, new_recorder, record_phase, record_all, snapshot,
}

module _ {A : Type 0} (name k : Str) (v : A) (d : List (Str × A)) where
  lookup-recorded : str_eq name k ≡ true → lookup k (put name v d) ≡ some v
  lookup-recorded same = lookup-put name k v d ∙ rw same refl

  lookup-other : str_eq name k ≡ false → lookup k (put name v d) ≡ lookup k d
  lookup-other other = lookup-put name k v d ∙ rw other refl

module _ {F : Type 0} (clock : Clock F) where
  -- The recorded phases of a name, in their order.
  abbrev pub named : Str → List (Event F) → List (Event F)
  named k [] = []
  named k (e ∷ events) = if str_eq e.name k then e ∷ named k events else named k events

  abbrev total_from : F → List (Event F) → F
  total_from sum [] = sum
  total_from sum (e ∷ events) = total_from (clock.plus sum e.duration_seconds) events

  abbrev last_from : Option F → List (Event F) → Option F
  last_from t [] = t
  last_from t (e ∷ events) = last_from (some e.timestamp_unix_s) events

  -- What was recorded of a name: how often, how long in all, and when last; nothing of a name that
  -- was not recorded.
  abbrev pub count_of : List (Event F) → Option ℕ
  count_of [] = none
  count_of (e ∷ events) = some (length (e ∷ events))

  abbrev pub duration_of : List (Event F) → Option F
  duration_of [] = none
  duration_of (e ∷ events) = some (total_from clock.zero_time (e ∷ events))

  abbrev pub last_of : List (Event F) → Option F
  last_of events = last_from none events

  -- The same on top of what is there.
  abbrev add_count : Option ℕ → List (Event F) → Option ℕ
  add_count n [] = n
  add_count n (e ∷ events) = some (get_or 0 n + length (e ∷ events))

  abbrev add_duration : Option F → List (Event F) → Option F
  add_duration d [] = d
  add_duration d (e ∷ events) = some (total_from (get_or clock.zero_time d) (e ∷ events))

  abbrev Holds : Str → List (Event F) → PhaseRecorder F → PhaseRecorder F → Type 0
  Holds k events before after =
      (lookup k after.counts ≡ add_count (lookup k before.counts) events)
      × (lookup k after.durations ≡ add_duration (lookup k before.durations) events)
      × (lookup k after.timestamps ≡ last_from (lookup k before.timestamps) events)

  add_count-cons :
      (n : ℕ) (events : List (Event F)) → add_count (some n) events ≡ some (n + length events)
  add_count-cons n [] = ap some (omega arith)
  add_count-cons n (e ∷ events) = refl

  add_duration-cons :
      (d : F) (events : List (Event F)) → add_duration (some d) events ≡ some (total_from d events)
  add_duration-cons d [] = refl
  add_duration-cons d (e ∷ events) = refl

  record_all-Holds :
      (k : Str) (events : List (Event F)) (r : PhaseRecorder F)
      → Holds k (named k events) r (record_all clock events r)
  unfolding record_all record_phase
  record_all-Holds k [] r = (refl, refl, refl)
  record_all-Holds k (e ∷ events) r =
      let r' = record_phase clock e.name e.duration_seconds e.timestamp_unix_s r in
      let (count, duration, last) = record_all-Holds k events r' in
      elim (Bool-cases (str_eq e.name k)) [
        | inl same ↦
            let is_k : e.name ≡ k = (str_eq_iff e.name k).0 same in
            let n : ℕ = get_or 0 (lookup k r.counts) in
            let t : F =
              clock.plus (get_or clock.zero_time (lookup k r.durations)) e.duration_seconds in
            let n_put : lookup k r'.counts ≡ some (n + 1) =
              lookup-recorded e.name k _ r.counts same
              ∙ (let h : lookup e.name r.counts ≡ lookup k r.counts =
                    ap (λ s. lookup s r.counts) is_k in
                  rw h refl) in
            let t_put : lookup k r'.durations ≡ some t =
              lookup-recorded e.name k _ r.durations same
              ∙ (let h : lookup e.name r.durations ≡ lookup k r.durations =
                    ap (λ s. lookup s r.durations) is_k in
                  rw h refl) in
            let now_put = lookup-recorded e.name k e.timestamp_unix_s r.timestamps same in
            rw same (
              count
                  ∙ ap (λ o. add_count o (named k events)) n_put
                  ∙ add_count-cons (n + 1) (named k events)
                  ∙ ap some (omega arith),
              duration
                  ∙ ap (λ o. add_duration o (named k events)) t_put
                  ∙ add_duration-cons t (named k events),
              last ∙ ap (λ o. last_from o (named k events)) now_put,
            )
        | inr other ↦ rw other (
          count ∙ ap (λ o. add_count o (named k events)) (lookup-other e.name k _ r.counts other),
          duration
              ∙ ap (λ o. add_duration o (named k events))
                  (lookup-other e.name k _ r.durations other),
          last
              ∙ ap (λ o. last_from o (named k events)) (lookup-other e.name k _ r.timestamps other),
        )
      ]

  -- A snapshot holds of each name what was recorded of it since the start: how often, the sum of
  -- the durations in their order, and the time of the last; and nothing of any other name.
  pub snapshot-record_all :
      (k : Str) (events : List (Event F))
      → (lookup k (snapshot clock (record_all clock events (new_recorder clock))).counts
          ≡ count_of (named k events))
        × (lookup k
              (snapshot clock (record_all clock events (new_recorder clock))).durations_seconds
            ≡ duration_of (named k events))
        × (lookup k
              (snapshot clock (record_all clock events (new_recorder clock))).last_timestamps_unix_s
            ≡ last_of (named k events))
  unfolding snapshot lookup
  snapshot-record_all k events =
      let (count, duration, last) = record_all-Holds k events (new_recorder clock) in
      (count ∙ fresh_count (named k events), duration ∙ fresh_duration (named k events), last)
    where
      fresh_count : (es : List (Event F)) → add_count none es ≡ count_of es
      fresh_count [] = refl
      fresh_count (e ∷ es) = ap some (omega arith)

      fresh_duration : (es : List (Event F)) → add_duration none es ≡ duration_of es
      fresh_duration [] = refl
      fresh_duration (e ∷ es) = refl
