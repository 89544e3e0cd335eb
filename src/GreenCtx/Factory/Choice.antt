-- ===== src/GreenCtx/Factory/Choice.antt =====
-- Which backend `select_backend` returns, and when it raises.
use morphling.Prelude.{◌≡◌, ◌⊎◌, inl, inr, Bool, true, false, arith, if◌then◌else◌}
use morphling.Py.{Result, ok, raise, import_error, value_error}
use morphling.GreenCtx.Base.{Role}
use morphling.GreenCtx.Off.{Off, make_off}
use morphling.GreenCtx.Factory.{
  Name, auto, cpp, torch_native, Chosen, chose_cpp, chose_torch, chose_off, Outcomes, or_off,
  select_backend,
}

module _ {C T O : Type 0} (o : Outcomes C T O) where
  -- A backend that was asked for by name, without `strict`, and is not supported is not replaced by
  -- another one, as the log's "Falling back" says, but raises `ValueError`.
  pub unsupported_by_name :
      ((b : C)
        → o.cpp_made ≡ ok b
        → o.cpp_supported b ≡ false
        → select_backend o cpp false ≡ raise value_error)
      × ((b : T)
          → o.torch_made ≡ ok b
          → o.torch_supported b ≡ false
          → select_backend o torch_native false ≡ raise value_error)
  unfolding select_backend or_off
  unsupported_by_name = (λ b made un. ground arith, λ b made un. ground arith)

  -- The first supported backend in the order of preference, and the off backend if there is none.
  abbrev pub preferred_torch : T → O → Chosen C T O
  preferred_torch t f = if o.torch_supported t then chose_torch t else chose_off f

  abbrev pub preferred : Result C → T → O → Chosen C T O
  preferred (ok c) t f = if o.cpp_supported c then chose_cpp c else preferred_torch t f
  preferred (raise e) t f = preferred_torch t f

  -- With `auto`, the first supported backend of C++ and PyTorch is returned and the off backend
  -- otherwise, where the constructors raise nothing but an `ImportError` of the C++ module.
  pub auto_preferred :
      (strict : Bool) (t : T) (f : O)
      → ((c : C) × (o.cpp_made ≡ ok c)) ⊎ (o.cpp_made ≡ raise import_error)
      → o.torch_made ≡ ok t
      → o.off_made ≡ ok f
      → select_backend o auto strict ≡ ok (preferred o.cpp_made t f)
  unfolding select_backend or_off
  auto_preferred strict t f (inl (c, made)) torch off_ok = ground arith
  auto_preferred strict t f (inr missing) torch off_ok = ground arith

module _ {C T Stream : Type 0} (o : Outcomes C T (Off Stream)) where
  abbrev pub IsSupported : Chosen C T (Off Stream) → Type 0
  IsSupported (chose_cpp b) = o.cpp_supported b ≡ true
  IsSupported (chose_torch b) = o.torch_supported b ≡ true
  IsSupported (chose_off b) = ⊥

  -- With `strict` a backend that is returned is a supported one, whatever the name.
  pub strict-IsSupported :
      (new_stream : Role → Stream) (name : Name) (chosen : Chosen C T (Off Stream))
      → o.off_made ≡ make_off new_stream true
      → select_backend o name true ≡ ok chosen
      → IsSupported chosen
  unfolding select_backend or_off make_off
  strict-IsSupported new_stream name (chose_cpp b) made e = ground arith
  strict-IsSupported new_stream name (chose_torch b) made e = ground arith
  strict-IsSupported new_stream name (chose_off b) made e = ground arith
