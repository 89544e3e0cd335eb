-- ===== src/GreenCtx/Factory/Examples.antt =====
-- Choices of a backend at concrete outcomes of the constructors.
use morphling.Prelude.{ℕ, ◌≡◌, refl, Bool, true, false, inl}
use morphling.Py.{ok}
use morphling.GreenCtx.Base.{Role}
use morphling.GreenCtx.Off.{Off, make_off}
use morphling.GreenCtx.Factory.{chose_torch, Outcomes, auto, select_backend, or_off}
use morphling.GreenCtx.Factory.Choice.{auto_preferred, strict-IsSupported, preferred, IsSupported}

abbrev stream : Role → ℕ
stream role = 0

-- The C++ backend is not supported, PyTorch's is.
abbrev torch_only : Bool → Outcomes ℕ ℕ (Off ℕ)
torch_only strict = record {
  cpp_made = ok 1;
  cpp_supported = λ c. false;
  torch_made = ok 2;
  torch_supported = λ t. true;
  off_made = make_off stream strict;
}

abbrev neither : Outcomes ℕ ℕ (Off ℕ)
neither = record {
  cpp_made = ok 1;
  cpp_supported = λ c. false;
  torch_made = ok 2;
  torch_supported = λ t. false;
  off_made = make_off stream false;
}

abbrev off_streams : Off ℕ
off_streams = record { strict = false; closed = false; streams = stream }

off-made : make_off stream false ≡ ok off_streams
unfolding make_off
off-made = refl

auto_preferred_example :
    select_backend (torch_only false) auto false
    ≡ ok (preferred (torch_only false) (torch_only false).cpp_made 2 off_streams)
auto_preferred_example =
    auto_preferred (torch_only false) false 2 off_streams (inl (1, refl)) refl off-made

strict-choice : select_backend (torch_only true) auto true ≡ ok (chose_torch 2)
unfolding select_backend or_off
strict-choice = refl

strict-IsSupported_example : IsSupported (torch_only true) (chose_torch 2)
strict-IsSupported_example =
    strict-IsSupported (torch_only true) stream auto (chose_torch 2) refl strict-choice
