-- ===== src/VTime/Reading.antt =====
-- What `read_log` keeps, and what `parse_vtime_event` reads of a line that was printed.
use mathlib.Core.Path.{subst}
use morphling.Prelude.{
  ℕ, ◌+◌, ◌≡◌, refl, ◌∙◌, ap, false, ◌&&◌, ◌||◌, not, leb, Option, none, some, List, [], ◌∷◌, arith,
  All, Elem, length, inl, inr, Option-cases, Bool-cases,
}
use morphling.Prelude.Int.{ℤ}
use morphling.Str.{
  Str, codes, is_empty, is_space, starts_with, split, strip, join, Lacks, split-join,
  EndsSolid-comma, field-EndsSolid, strip_solid, show, int_of-show, show-Lacks_comma,
  show-EndsSolid,
}
use morphling.Py.{Error, Result, ok, raise, index_error}
use morphling.VTime.{
  VtEvent, ThroughputEvent, caught, int_field, vtime_fields, parse_vtime_event, throughput_fields,
  parse_throughput_event, Log, add_other, read_line, read_log,
}
use morphling.VTime.Write.{vtime_line}

module _ {F : Type 0} (float_of : Str → Option F) where
  abbrev pub count_of : Log float_of → ℕ
  count_of log = length log.vtime_events + length log.throughput_events + length log.other_lines

  count_of-add_other :
      (line : Str) (o : Option (ThroughputEvent F)) (log : Log float_of)
      → count_of (add_other float_of line o log) ≡ count_of log + 1
  unfolding add_other
  count_of-add_other line none log = omega arith
  count_of-add_other line (some e) log = omega arith

  parse_throughput_event-total :
      (line : Str)
      → is_empty line ≡ false
      → (o : Option (ThroughputEvent F)) × (parse_throughput_event float_of line ≡ ok o)
  unfolding parse_throughput_event
  parse_throughput_event-total [] h = cc
  parse_throughput_event-total (c ∷ s) h =
      elim (Bool-cases (
        starts_with (c ∷ s) (codes "VTIME,")
        || starts_with (c ∷ s) (codes "#")
        || not (leb 48 c && leb c 57))) [
          | inl e ↦ (none, rw e refl)
          | inr e ↦
              (caught (throughput_fields float_of (c ∷ s) (split b',' (strip (c ∷ s)))), rw e refl)
        ]

  -- A log without empty lines is read, and each line of it is an event of one of the two kinds or
  -- is kept as it is: no line is lost or read twice.
  pub read_log-count :
      (lines : List Str)
      → All (λ line. is_empty line ≡ false) lines
      → (log : Log float_of) × (read_log float_of lines ≡ ok log) × (count_of log ≡ length lines)
  unfolding read_log read_line
  read_log-count [] h =
      (record { vtime_events = []; throughput_events = []; other_lines = [] }, refl, refl)
  read_log-count (line ∷ lines) h =
      let (log, was_read, counted) = read_log-count lines h.1 in
      elim (Option-cases (parse_vtime_event line)) [
        | inl no_event ↦
            let (o, parsed) = parse_throughput_event-total line h.0 in
            (
              add_other float_of line o log,
              rw no_event (rw parsed (rw was_read refl)),
              count_of-add_other line o log ∙ omega (arith, counted),
            )
        | inr (e, event) ↦ (
          record log { vtime_events = e ∷ log.vtime_events },
          rw event (rw was_read refl),
          omega (arith, counted),
        )
      ]

  parse_throughput_event-error :
      (line : Str) {err : Error}
      → parse_throughput_event float_of line ≡ raise err
      → err ≡ index_error
  unfolding parse_throughput_event
  parse_throughput_event-error [] h = cc
  parse_throughput_event-error (c ∷ s) h = ground arith

  read_line-raise :
      (line : Str) (o : Option VtEvent)
      → read_line float_of line o (raise index_error) ≡ raise index_error
  unfolding read_line
  read_line-raise line (some e) = refl
  read_line-raise line none = go (parse_throughput_event float_of line) refl
    where
      go :
          (r : Result (Option (ThroughputEvent F)))
          → parse_throughput_event float_of line ≡ r
          → read_line float_of line none (raise index_error) ≡ raise index_error
      go (ok p) e = rw e refl
      go (raise err) e = rw e (ap raise (parse_throughput_event-error line e))

  -- An empty line anywhere in the log makes `read_log` raise `IndexError`.
  pub read_log-blank :
      (lines : List Str) → Elem [] lines → read_log float_of lines ≡ raise index_error
  unfolding read_log read_line parse_throughput_event parse_vtime_event starts_with
  read_log-blank [] m = elim m [ ]
  read_log-blank (line ∷ lines) (inl here) =
      subst (λ l. read_log float_of (l ∷ lines) ≡ raise index_error) here refl
  read_log-blank (line ∷ lines) (inr there) =
      rw (read_log-blank lines there) (read_line-raise line (parse_vtime_event line))

-- The fields of a printed event.
abbrev fields_of : VtEvent → List Str
fields_of e =
    show e.timestamp_us
    ∷ show e.device_id
    ∷ show e.gemm_id
    ∷ e.phase
    ∷ e.event
    ∷ show e.vt_start_us
    ∷ show e.vt_end_us
    ∷ show e.vt_duration_us
    ∷ []

vtime_line-strip : (e : VtEvent) → strip (vtime_line e) ≡ vtime_line e
unfolding vtime_line join is_space
vtime_line-strip e = strip_solid b'V' _ refl (
    field-EndsSolid (show e.timestamp_us) _ (
      field-EndsSolid (show e.device_id) _ (
        field-EndsSolid (show e.gemm_id) _ (
          field-EndsSolid e.phase _ (
            field-EndsSolid e.event _ (
              field-EndsSolid (show e.vt_start_us) _ (
                field-EndsSolid (show e.vt_end_us) _
                  (EndsSolid-comma (show e.vt_duration_us) (show-EndsSolid e.vt_duration_us)))))))))

int_field-show : (n : ℤ) → int_field (show n) ≡ ok n
int_field-show n = rw (int_of-show n) refl

vtime_fields-fields_of :
    (line : Str) (e : VtEvent)
    → vtime_fields line (codes "VTIME" ∷ fields_of e) ≡ ok (record e { line = line })
unfolding vtime_fields
vtime_fields-fields_of line e = rw (int_of-show e.timestamp_us) (
    rw (int_of-show e.device_id) (
      rw (int_of-show e.gemm_id) (
        rw (int_of-show e.vt_start_us)
          (rw (int_of-show e.vt_end_us) (rw (int_of-show e.vt_duration_us) refl)))))

-- The line that is printed of an event is read back as that event, if its two names hold no comma.
pub parse_vtime_event-vtime_line :
    (e : VtEvent)
    → Lacks b',' e.phase
    → Lacks b',' e.event
    → parse_vtime_event (vtime_line e) ≡ some (record e { line = vtime_line e })
unfolding parse_vtime_event starts_with vtime_line join
parse_vtime_event-vtime_line e no_comma no_comma' =
    let comma = show-Lacks_comma in
    ap (λ parts. caught (vtime_fields (vtime_line e) parts))
      (ap (split b',') (vtime_line-strip e)
        ∙ split-join b',' (codes "VTIME") (fields_of e) (refl, (refl, (refl, (refl, (refl, tt)))))
            (
              comma e.timestamp_us,
              (
                comma e.device_id,
                (
                  comma e.gemm_id,
                  (
                    no_comma,
                    (
                      no_comma',
                      (comma e.vt_start_us, (comma e.vt_end_us, (comma e.vt_duration_us, tt))),
                    ),
                  ),
                ),
              ),
            ))
    ∙ ap caught (vtime_fields-fields_of (vtime_line e) e)
