-- ===== src/GreenCtx/Factory.antt =====
-- morphling/runtime/greenctx/factory.py: the choice of a backend.
pub mod Choice
mod Examples
use morphling.Prelude.{◌≡◌, Bool, true, false, ◌||◌, Option, List, [], ◌∷◌, if◌then◌else◌}
use morphling.Py.{Error, import_error, value_error, runtime_error, Result, ok, raise}

-- The texts that `backend` is compared with; any other text is `unknown`.
pub data Name : Type 0 where
  auto cpp torch_native off unknown : Name

-- The backend that was constructed and returned.
pub data Chosen (C T O : Type 0) : Type 0 where
  chose_cpp : C → Chosen C T O
  chose_torch : T → Chosen C T O
  chose_off : O → Chosen C T O

-- The outcomes of the three constructors, at the call's `strict`, and the answers of
-- `is_supported()` of the two that are asked.
pub record Outcomes (C T O : Type 0) : Type 0 where
  pub cpp_made : Result C
  pub cpp_supported : C → Bool
  pub torch_made : Result T
  pub torch_supported : T → Bool
  pub off_made : Result O

abbrev wants_cpp : Name → Bool
wants_cpp auto = true
wants_cpp cpp = true
wants_cpp _ = false

abbrev wants_torch : Name → Bool
wants_torch auto = true
wants_torch torch_native = true
wants_torch _ = false

abbrev wants_off : Name → Bool
wants_off auto = true
wants_off off = true
wants_off _ = false

module _ {C T O : Type 0} (o : Outcomes C T O) where
  -- The last two statements.
  unfoldable pub or_off : Name → Result (Chosen C T O)
  or_off name =
      if wants_off name
      then elim o.off_made [ ok b ↦ ok (chose_off b) | raise e ↦ raise e ]
      else raise value_error

  -- The block of `TorchNativeBackend`; its constructor's exceptions are not caught.
  unfoldable pub torch_block : Name → Bool → Result T → Result (Chosen C T O)
  torch_block name strict (raise e) = raise e
  torch_block torch_native strict (ok b) =
      if o.torch_supported b
      then ok (chose_torch b)
      else if strict
      then raise runtime_error
      else or_off torch_native
  torch_block name strict (ok b) = if o.torch_supported b then ok (chose_torch b) else or_off name

  unfoldable pub or_torch : Name → Bool → Result (Chosen C T O)
  unfolding or_off torch_block
  or_torch name strict =
      if wants_torch name then torch_block name strict o.torch_made else or_off name

  -- The block of `CppBackend`; of its constructor's exceptions `ImportError` alone is caught, and
  -- raised again when the backend was asked for by name.
  unfoldable pub cpp_block : Name → Bool → Result C → Result (Chosen C T O)
  cpp_block cpp strict (raise e) = raise e
  cpp_block name strict (raise import_error) = or_torch name strict
  cpp_block name strict (raise e) = raise e
  cpp_block cpp strict (ok b) =
      if o.cpp_supported b
      then ok (chose_cpp b)
      else if strict
      then raise runtime_error
      else or_torch cpp strict
  cpp_block name strict (ok b) =
      if o.cpp_supported b then ok (chose_cpp b) else or_torch name strict

  unfoldable pub select_backend : Name → Bool → Result (Chosen C T O)
  unfolding or_torch cpp_block
  select_backend name strict =
      if wants_cpp name then cpp_block name strict o.cpp_made else or_torch name strict

  -- The backends that the call closes itself: a `CppBackend` that was asked for by name and is not
  -- supported, without `strict`.
  unfoldable pub closed_on_the_way : Name → Bool → Result C → List C
  closed_on_the_way cpp false (ok b) = if o.cpp_supported b then [] else b ∷ []
  closed_on_the_way name strict made = []
