-- ===== src/Ldpc.antt =====
-- morphling/runtime/ldpc_trace_adapter.py: traces of an LDPC decoder as traces of SM counts. The
-- table that pandas reads is a list of named columns; a cell is what `to_numeric` and `astype(int)`
-- make of it, nothing where it is no number.
pub mod Changes
pub mod Converted
mod Examples
use morphling.Prelude.{
  ℕ, ◌+◌, ◌-◌, ◌%◌, ◌≡◌, Bool, true, false, not, ◌&&◌, ◌||◌, Option, none, some, List, [], ◌∷◌, ltb,
  if◌then◌else◌,
}
use morphling.Prelude.Int.{ℤ, pos, negsuc, ◌-ℤ◌, ltb_ℤ, leb_ℤ, min_ℤ, max_ℤ}
use morphling.Str.{Str, codes, join, show}
use morphling.Py.{Error, Result, raise, ok, ◌>>=◌}
use morphling.Dict.{lookup, str_key}

abbrev pub Column : Type 0
Column = List (Option ℤ)

abbrev pub Frame : Type 0
Frame = List (Str × Column)

-- A row of the adapter's table, as far as it is read.
pub record Row : Type 0 where
  pub time_slot_sched_ns : ℤ
  pub sm_count : ℤ
  pub time_decode_start_actual_ns : ℤ
  pub profile_idx : ℤ
  pub effective_sm_count : ℤ

-- `warned` says that some SM count was above the total.
pub record LdpcTraceAdapter : Type 0 where
  pub total_sms : ℤ
  pub rows : List Row
  pub warned : Bool

-- `_to_int_series`
unfoldable pub to_int_series : Column → Result (List ℤ)
to_int_series [] = ok []
to_int_series (none ∷ cells) = raise Error.value_error
to_int_series (some n ∷ cells) = do ns ← to_int_series cells; ok (n ∷ ns)

-- A required column; without it the constructor raises.
unfoldable pub required : Str → Frame → Result Column
required name frame = elim (lookup name frame) [ none ↦ raise Error.value_error | some c ↦ ok c ]

-- `fillna(0)`
unfoldable pub filled : Column → List ℤ
filled [] = []
filled (none ∷ cells) = pos 0 ∷ filled cells
filled (some n ∷ cells) = n ∷ filled cells

unfoldable pub zeros : List ℤ → List ℤ
zeros [] = []
zeros (_ ∷ ns) = pos 0 ∷ zeros ns

unfoldable pub profiles : Frame → List ℤ → List ℤ
unfolding filled zeros
profiles frame like = elim (lookup (codes "profile_idx") frame) [
  | none ↦ zeros like
  | some c ↦ filled c
]

-- `clip(lower=0, upper=total_sms)`
abbrev pub clip : ℤ → ℤ → ℤ
clip total n = min_ℤ (max_ℤ n (pos 0)) total

-- The columns side by side; all columns of a table have one length.
unfoldable pub zip_rows : ℤ → List ℤ → List ℤ → List ℤ → List ℤ → List Row
zip_rows total (t ∷ ts) (n ∷ ns) (a ∷ as_) (p ∷ ps) =
    record {
      time_slot_sched_ns = t;
      sm_count = n;
      time_decode_start_actual_ns = a;
      profile_idx = p;
      effective_sm_count = clip total n;
    }
    ∷ zip_rows total ts ns as_ ps
zip_rows total _ _ _ _ = []

unfoldable pub any_above : ℤ → List ℤ → Bool
any_above total [] = false
any_above total (n ∷ ns) = ltb_ℤ total n || any_above total ns

-- `df.empty`: no columns, or no rows.
abbrev pub is_empty_frame : Frame → Bool
is_empty_frame [] = true
is_empty_frame ((_, []) ∷ _) = true
is_empty_frame ((_, _ ∷ _) ∷ _) = false

unfoldable pub read_columns : ℤ → Frame → Result LdpcTraceAdapter
unfolding required to_int_series profiles zip_rows any_above
read_columns total_sms frame = do
  sched ← required (codes "time_slot_sched_ns") frame
  sms ← required (codes "sm_count") frame
  actual ← required (codes "time_decode_start_actual_ns") frame
  sched_ns ← to_int_series sched
  sm_counts ← to_int_series sms
  actual_ns ← to_int_series actual
  ok record {
    total_sms = total_sms;
    rows = zip_rows total_sms sched_ns sm_counts actual_ns (profiles frame sched_ns);
    warned = any_above total_sms sm_counts;
  }

-- The constructor.
unfoldable pub make_adapter : ℤ → Frame → Result LdpcTraceAdapter
unfolding read_columns
make_adapter total_sms frame =
    if leb_ℤ total_sms (pos 0)
    then raise Error.value_error
    else if is_empty_frame frame
    then raise Error.value_error
    else read_columns total_sms frame

-- A row of the second format: time stamp, SM count and tag.
abbrev pub V2 : Type 0
V2 = ℤ × ℤ × ℤ

unfoldable pub v2_rows : ℤ → List Row → List V2
v2_rows total [] = []
v2_rows total (r ∷ rows) =
    (r.time_slot_sched_ns, total -ℤ r.effective_sm_count, r.profile_idx) ∷ v2_rows total rows

unfoldable pub to_v2_dataframe : LdpcTraceAdapter → List V2
unfolding v2_rows
to_v2_dataframe a = v2_rows a.total_sms a.rows

unfoldable pub v2_line : V2 → Str
v2_line (timestamp_ns, num_sms, tag) = join b',' (show timestamp_ns ∷ show num_sms ∷ show tag ∷ [])

unfoldable pub v2_lines : List V2 → List Str
unfolding v2_line
v2_lines [] = []
v2_lines (row ∷ rows) = v2_line row ∷ v2_lines rows

-- The lines that `to_csv(index=False)` writes.
unfoldable pub to_v2_file : LdpcTraceAdapter → List Str
unfolding to_v2_dataframe v2_lines
to_v2_file a = codes "timestamp_ns,num_sms,tag" ∷ v2_lines (to_v2_dataframe a)

-- A change of the SM count.
pub record Delta : Type 0 where
  pub row_idx : ℕ
  pub prev_sm : ℤ
  pub curr_sm : ℤ
  pub switch_gap_ns : ℤ

-- An integer as 64 bits hold it, with its sign.
unfoldable pub wrap64 : ℤ → ℤ
wrap64 (pos n) =
    let m = n % 18446744073709551616 in
    if ltb m 9223372036854775808 then pos m else negsuc (18446744073709551615 - m)
wrap64 (negsuc n) =
    let m = n % 18446744073709551616 in
    if ltb m 9223372036854775808 then negsuc m else pos (18446744073709551615 - m)

-- `doubled` is the integer that a number of 64 bits becomes as a double: `shift(1)` makes doubles of
-- the counts, and a comparison with them makes one of the other side.
module _ (doubled : ℤ → ℤ) where
  abbrev delta : ℕ → ℤ → Row → Delta
  delta i prev r = record {
    row_idx = i;
    prev_sm = wrap64 (doubled prev);
    curr_sm = r.sm_count;
    switch_gap_ns = wrap64 (r.time_decode_start_actual_ns -ℤ r.time_slot_sched_ns);
  }

  -- The rows from the index on whose count lies above the one before, or below it.
  unfoldable pub deltas_from : Bool → ℕ → ℤ → List Row → List Delta
  unfolding wrap64
  deltas_from increase i prev [] = []
  deltas_from increase i prev (r ∷ rows) =
      let rest = deltas_from increase (i + 1) r.sm_count rows in
      if (if increase
        then ltb_ℤ (doubled prev) (doubled r.sm_count)
        else ltb_ℤ (doubled r.sm_count) (doubled prev))
      then delta i prev r ∷ rest
      else rest

  -- `shift(1)` gives the first row no predecessor.
  unfoldable pub detect_deltas : Bool → List Row → List Delta
  unfolding deltas_from
  detect_deltas increase [] = []
  detect_deltas increase (r ∷ rows) = deltas_from increase 1 r.sm_count rows

  unfoldable pub detect_violations : LdpcTraceAdapter → List Delta
  unfolding detect_deltas
  detect_violations a = detect_deltas true a.rows

  unfoldable pub detect_inefficiencies : LdpcTraceAdapter → List Delta
  unfolding detect_deltas
  detect_inefficiencies a = detect_deltas false a.rows
