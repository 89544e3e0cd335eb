-- ===== src/Violations/Boundaries.antt =====
-- The slots of a trace follow each other, and what a GEMM log gives.
use mathlib.Core.Path.{subst}
use morphling.Prelude.{All, ◌≡◌, ◌≢◌, refl, List, [], ◌∷◌, arith, ◌⊎◌, Elem}
use morphling.Prelude.Int.{◌+ℤ◌, pos, ◌≤ℤ◌, int_laws}
use morphling.Str.{Str}
use morphling.Py.{Error, Result, raise, ok, >>=-eq-ok}
use morphling.Dict.{str_key}
use morphling.Violations.{GemmCall, StepSlot}
use morphling.Violations.Parse.{
  DictRow, TableRow, gemm_of, table_slots, set_ends, parse_trace_boundaries,
}
use morphling.Violations.Wall.{AreSequential}

-- No slot starts before the one in front of it.
abbrev pub StartInOrder : List StepSlot → Type 0
StartInOrder [] = Unit
StartInOrder (s ∷ []) = Unit
StartInOrder (s ∷ t ∷ slots) = (s.start_ns ≤ℤ t.start_ns) × StartInOrder (t ∷ slots)

-- Each slot ends where the next one starts, and the last one a millisecond after its start.
abbrev pub AreAdjacent : List StepSlot → Type 0
AreAdjacent [] = Unit
AreAdjacent (s ∷ []) = s.end_ns ≡ s.start_ns +ℤ pos 1000000
AreAdjacent (s ∷ t ∷ slots) = (s.end_ns ≡ t.start_ns) × AreAdjacent (t ∷ slots)

set_ends-AreAdjacent : (slots : List StepSlot) → AreAdjacent (set_ends slots)
unfolding set_ends
set_ends-AreAdjacent [] = tt
set_ends-AreAdjacent (s ∷ []) = refl
set_ends-AreAdjacent (s ∷ t ∷ []) = (refl, refl)
set_ends-AreAdjacent (s ∷ t ∷ u ∷ slots) = (refl, set_ends-AreAdjacent (t ∷ u ∷ slots))

-- Slots that are adjacent and start in order follow each other in time.
adjacent-AreSequential :
    (slots : List StepSlot) → StartInOrder slots → AreAdjacent slots → AreSequential slots
adjacent-AreSequential [] ordered adjacent = tt
adjacent-AreSequential (s ∷ []) ordered adjacent =
    let later : s.start_ns ≤ℤ s.start_ns +ℤ pos 1000000 = omega int_laws in rw adjacent later
adjacent-AreSequential (s ∷ t ∷ slots) ordered adjacent = (
  rw (adjacent.0) (ordered.0),
  (let h : t.start_ns ≤ℤ t.start_ns = omega arith in rw (adjacent.0) h),
  adjacent-AreSequential (t ∷ slots) ordered.1 adjacent.1,
)

-- The slots of a table whose times never decrease: each ends where the next one starts, the last one
-- a millisecond after its start, and no slot ends before it starts.
pub parse_trace_boundaries-AreAdjacent :
    (rows : List TableRow) (slots : List StepSlot)
    → parse_trace_boundaries rows ≡ ok slots
    → StartInOrder slots
    → AreAdjacent slots × AreSequential slots
unfolding parse_trace_boundaries
parse_trace_boundaries-AreAdjacent rows slots returned ordered =
    let (found, read, ended) = >>=-eq-ok (table_slots 0 rows) (λ s. ok (set_ends s)) returned in
    let same : set_ends found ≡ slots = cc in
    let adjacent : AreAdjacent slots = subst AreAdjacent same (set_ends-AreAdjacent found) in
    (adjacent, adjacent-AreSequential slots ordered adjacent)

-- The exceptions that a row may raise.
abbrev IsRowError : Error → Type 0
IsRowError Error.key_error = Unit
IsRowError Error.value_error = Unit
IsRowError Error.type_error = Unit
IsRowError _ = ⊥

abbrev RaisesRowErrors : {A : Type 0} → Result A → Type 0
RaisesRowErrors (ok a) = Unit
RaisesRowErrors (raise e) = IsRowError e

-- The calls of the rows that give one.
abbrev pub valid_calls : List DictRow → List GemmCall
valid_calls [] = []
valid_calls (row ∷ rows) = elim (gemm_of row) [
  | ok g ↦ g ∷ valid_calls rows
  | raise e ↦ valid_calls rows
]

-- Some row lacks the text of a number.
abbrev pub HasShortRow : List DictRow → Type 0
HasShortRow rows = (row : DictRow) × Elem row rows × (gemm_of row ≡ raise Error.type_error)

abbrev Gives : List DictRow → Result (List GemmCall) → Type 0
Gives rows r =
    (HasShortRow rows × (r ≡ raise Error.type_error))
    ⊎ (All (λ row. gemm_of row ≢ raise Error.type_error) rows × (r ≡ ok (valid_calls rows)))
