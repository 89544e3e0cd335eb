-- ===== src/Ldpc/Converted.antt =====
-- The converted trace: its SM counts lie in range, and the parser of traces reads it back.
use mathlib.Core.Path.{subst}
use morphling.Prelude.{
  ◌≡◌, refl, sym, ◌∙◌, ap, true, Bool-cases, inl, inr, List, [], ◌∷◌, ◌++◌, arith, All,
}
use morphling.Prelude.Int.{ℤ, pos, ◌-ℤ◌, ◌≤ℤ◌, leb_ℤ, ltb_ℤ, int_laws}
use morphling.Str.{
  codes, is_space, strip, starts_with, split, join, split-join, EndsSolid, strip_solid, show,
  show_first, signed_value, digits_value, EndsSolid-append, EndsSolid-comma, field-EndsSolid,
  int_of, int_of-show, show-Lacks_comma, show-EndsSolid,
}
use morphling.Py.{Result, raise, ok, ◌>>=◌}
use morphling.GreenCtx.Trace.{parse_trace_file}
use morphling.GreenCtx.Trace.Units.{SetsNoUnit, parse_trace_file-time_unit}
use morphling.GreenCtx.Trace.Rows.{rows, parse_trace_file-rows}
use morphling.Ldpc.{
  Row, LdpcTraceAdapter, Frame, Column, clip, required, to_int_series, profiles, any_above,
  zip_rows, read_columns, is_empty_frame, make_adapter, V2, v2_rows, to_v2_dataframe, v2_line,
  v2_lines, to_v2_file,
}

-- The SM count of the row is what the decoder's, taken into range, leaves of the total.
abbrev pub IsClipped : ℤ → Row → Type 0
IsClipped total r = r.effective_sm_count ≡ clip total r.sm_count

zip_rows-IsClipped :
    (total : ℤ) (ts ns as_ ps : List ℤ) → All (IsClipped total) (zip_rows total ts ns as_ ps)
unfolding zip_rows
zip_rows-IsClipped total (t ∷ ts) (n ∷ ns) (a ∷ as_) (p ∷ ps) =
    (refl, zip_rows-IsClipped total ts ns as_ ps)
zip_rows-IsClipped total _ _ _ _ = tt

abbrev pub IsInRange : ℤ → V2 → Type 0
IsInRange total v = (pos 0 ≤ℤ v.1) × (v.1 ≤ℤ total)

ok-injective : {A : Type 0} {a b : A} → ok a ≡ ok b → a ≡ b
ok-injective h = cc

clip_bounds : (total n : ℤ) → pos 0 ≤ℤ total → (pos 0 ≤ℤ clip total n) × (clip total n ≤ℤ total)
clip_bounds total n h = ground arith

-- What a share within the total leaves lies within the total too.
left_bounds :
    (total n : ℤ) → pos 0 ≤ℤ n → n ≤ℤ total → (pos 0 ≤ℤ total -ℤ n) × (total -ℤ n ≤ℤ total)
left_bounds total n low high = omega int_laws

v2_rows-IsInRange :
    (total : ℤ) (rs : List Row)
    → pos 0 ≤ℤ total
    → All (IsClipped total) rs
    → All (IsInRange total) (v2_rows total rs)
unfolding v2_rows
v2_rows-IsInRange total [] h c = tt
v2_rows-IsInRange total (r ∷ rs) h c =
    let (low, high) =
      subst (λ x. (pos 0 ≤ℤ x) × (x ≤ℤ total)) (sym c.0) (clip_bounds total r.sm_count h) in
    (left_bounds total r.effective_sm_count low high, v2_rows-IsInRange total rs h c.1)

-- The columns of an adapter that was made.
read_columns-IsClipped :
    (total : ℤ) (frame : Frame) {a : LdpcTraceAdapter}
    → read_columns total frame ≡ ok a
    → (a.total_sms ≡ total) × All (IsClipped total) a.rows
unfolding read_columns
read_columns-IsClipped total frame {a} returned =
    go (required (codes "time_slot_sched_ns") frame) (required (codes "sm_count") frame)
      (required (codes "time_decode_start_actual_ns") frame) returned
  where
    columns :
        (sched sms actual : Result (List ℤ))
        → (do
          sched_ns ← sched
          sm_counts ← sms
          actual_ns ← actual
          ok record {
            total_sms = total;
            rows = zip_rows total sched_ns sm_counts actual_ns (profiles frame sched_ns);
            warned = any_above total sm_counts;
          })
          ≡ ok a
        → (a.total_sms ≡ total) × All (IsClipped total) a.rows
    columns (ok ts) (ok ns) (ok as_) h =
        let made = ok-injective h in
        subst (λ (b : LdpcTraceAdapter). (b.total_sms ≡ total) × All (IsClipped total) b.rows) made
          (refl, zip_rows-IsClipped total ts ns as_ (profiles frame ts))
    columns (raise e) _ _ h = absurd cc
    columns (ok ts) (raise e) _ h = absurd cc
    columns (ok ts) (ok ns) (raise e) h = absurd cc

    go :
        (sched sms actual : Result Column)
        → (do
          sched' ← sched
          sms' ← sms
          actual' ← actual
          sched_ns ← to_int_series sched'
          sm_counts ← to_int_series sms'
          actual_ns ← to_int_series actual'
          ok record {
            total_sms = total;
            rows = zip_rows total sched_ns sm_counts actual_ns (profiles frame sched_ns);
            warned = any_above total sm_counts;
          })
          ≡ ok a
        → (a.total_sms ≡ total) × All (IsClipped total) a.rows
    go (ok s) (ok n) (ok w) h = columns (to_int_series s) (to_int_series n) (to_int_series w) h
    go (raise e) _ _ h = absurd cc
    go (ok s) (raise e) _ h = absurd cc
    go (ok s) (ok n) (raise e) h = absurd cc

-- Of an adapter that was made, the total is positive and each SM count of the converted trace lies
-- between 0 and the total.
pub to_v2_dataframe-IsInRange :
    (total : ℤ) (frame : Frame) {a : LdpcTraceAdapter}
    → make_adapter total frame ≡ ok a
    → (ltb_ℤ (pos 0) total ≡ true) × All (IsInRange total) (to_v2_dataframe a)
unfolding make_adapter to_v2_dataframe
to_v2_dataframe-IsInRange total frame {a} returned = elim (Bool-cases (leb_ℤ total (pos 0))) [
  | inl none_left ↦ absurd (let no : Result.raise _ ≡ ok _ = rw none_left at returned in cc)
  | inr some_left ↦
      let above : pos 0 ≤ℤ total = ground arith in
      (
        ground arith,
        elim (Bool-cases (is_empty_frame frame)) [
          | inl no_rows ↦
              absurd (let no : Result.raise _ ≡ ok a = rw (some_left, no_rows) at returned in cc)
          | inr some_rows ↦
              let read : read_columns total frame ≡ ok a = rw (some_left, some_rows) at returned in
              let (same, clipped) = read_columns-IsClipped total frame read in
              subst (λ n. All (IsInRange total) (v2_rows n a.rows)) (sym same)
                (v2_rows-IsInRange total a.rows above clipped)
        ],
      )
]

abbrev pub pairs : List V2 → List (ℤ × ℤ)
pairs [] = []
pairs (v ∷ vs) = (v.0, v.1) ∷ pairs vs

v2_line-strip : (v : V2) → strip (v2_line v) ≡ v2_line v
unfolding v2_line join
v2_line-strip (t, n, tag) =
    let (c, s, e, first) = show_first t in
    let tail =
      field-EndsSolid (show n) (show tag) (EndsSolid-comma (show tag) (show-EndsSolid tag)) in
    let solid : EndsSolid (c ∷ s ++ b',' ∷ (show n ++ b',' ∷ show tag)) =
      EndsSolid-append (c ∷ s) b',' (show n ++ b',' ∷ show tag) tail in
    rw e (
      strip_solid c (s ++ b',' ∷ (show n ++ b',' ∷ show tag)) (unfold is_space in ground arith)
        solid)

rows-v2_lines : (vs : List V2) → rows (v2_lines vs) ≡ pairs vs
unfolding v2_lines
rows-v2_lines [] = refl
rows-v2_lines ((t, n, tag) ∷ vs) =
    let comma = show-Lacks_comma in
    let fields : split b',' (v2_line (t, n, tag)) ≡ show t ∷ show n ∷ show tag ∷ [] =
      unfold v2_line in
      split-join b',' (show t) (show n ∷ show tag ∷ []) (comma t) (comma n, (comma tag, tt)) in
    rw (v2_line-strip (t, n, tag), fields)
      (rw (int_of-show t, int_of-show n) (ap (λ vs'. (t, n) ∷ vs') (rows-v2_lines vs)))

v2_lines-SetsNoUnit : (vs : List V2) → All SetsNoUnit (v2_lines vs)
unfolding v2_lines
v2_lines-SetsNoUnit [] = tt
v2_lines-SetsNoUnit ((t, n, tag) ∷ vs) =
    let (c, s, e, first) = show_first t in
    let line : strip (v2_line (t, n, tag)) ≡ c ∷ (s ++ b',' ∷ (show n ++ b',' ∷ show tag)) =
      v2_line-strip (t, n, tag)
      ∙ (unfold v2_line join in ap (λ w. w ++ b',' ∷ (show n ++ b',' ∷ show tag)) e) in
    (
      (rw line (unfold starts_with in ground arith), rw line (unfold starts_with in ground arith)),
      v2_lines-SetsNoUnit vs,
    )

-- From the file that an adapter writes, the parser of traces reads back the time stamps and SM
-- counts of all rows in order. The file names no time unit, so the parser takes the nanoseconds
-- for microseconds.
pub parse_trace_file-to_v2_file :
    (a : LdpcTraceAdapter)
    → ((parse_trace_file (to_v2_file a)).entries ≡ pairs (to_v2_dataframe a))
      × ((parse_trace_file (to_v2_file a)).time_unit ≡ codes "us")
unfolding to_v2_file
parse_trace_file-to_v2_file a = (
  parse_trace_file-rows (to_v2_file a)
      ∙ (unfold strip split int_of signed_value digits_value in rows-v2_lines (to_v2_dataframe a)),
  parse_trace_file-time_unit (to_v2_file a)
      (unfold strip starts_with in ((refl, refl), v2_lines-SetsNoUnit (to_v2_dataframe a))),
)
