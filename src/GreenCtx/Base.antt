-- ===== src/GreenCtx/Base.antt =====
-- morphling/runtime/greenctx/base.py: the stream bundle and the protocol of a backend. A backend's
-- methods pass its state; the laws are what the controller relies on.
use morphling.Prelude.{ℕ, ◌≡◌, ◌↔◌, Option, Bool, true, false, List, [], ◌∷◌, arith}
use morphling.Prelude.Int.{ℤ, pos}
use morphling.Py.{Result, ok}
use morphling.Dict.{Eq}
use morphling.Str.{Str}

pub data Role : Type 0 where
  compute recv send dp : Role

abbrev pub role_names : List Role
role_names = compute ∷ recv ∷ send ∷ dp ∷ []

abbrev pub role_eqb : Role → Role → Bool
role_eqb compute compute = true
role_eqb recv recv = true
role_eqb send send = true
role_eqb dp dp = true
role_eqb _ _ = false

pub role_eqb_iff : (a b : Role) → (role_eqb a b ≡ true) ↔ (a ≡ b)
role_eqb_iff a b = (λ h. ground arith, λ h. ground arith)

instance abbrev pub role_eq : Eq Role
role_eq = record { eqb = role_eqb; eqb_iff = role_eqb_iff }

pub record StreamBundle (Stream : Type 0) : Type 0 where
  pub comp : Stream
  pub recv_stream : Stream
  pub send_stream : Stream
  pub dp_stream : Stream
  pub sm_count : ℤ
  pub generation : ℕ

abbrev pub streams_dict : {Stream : Type 0} → StreamBundle Stream → List (Role × Stream)
streams_dict b =
    (compute, b.comp) ∷ (recv, b.recv_stream) ∷ (send, b.send_stream) ∷ (dp, b.dp_stream) ∷ []

-- What `activate_for_step` and `activate_for_time` return: the SM count and the generation.
abbrev pub Activation : Type 0
Activation = ℤ × ℕ

-- The protocol `GreenCtxBackend` over a state `B`, with a `Result` where a method may raise.
pub record Backend (B Stream : Type 0) : Type 0 where
  pub is_supported : B → Bool
  pub available_sm_counts : B → List ℤ
  pub partition_sm_count : B → ℤ
  pub get_stream_bundle : B → ℤ → Result (StreamBundle Stream)
  pub activate_for_step : ℤ → B → Result Activation × B
  pub activate_for_time : ℤ → B → Result Activation × B
  pub deactivate : ℤ → B → B
  pub load_trace : Option (List Str) → B → Bool × B
  pub switch_count : B → ℕ
  pub close : B → B
  -- What the controller relies on: a supported backend's bundle carries the SM count that it was
  -- asked for, an unsupported one has the bundle of SM count 0, and after an activation the bundle
  -- carries the SM count and the generation that the activation reported.
  pub supported_bundle :
      (b : B) (sm : ℤ) (bundle : StreamBundle Stream)
      → is_supported b ≡ true
      → get_stream_bundle b sm ≡ ok bundle
      → bundle.sm_count ≡ sm
  pub off_bundle :
      (b : B) (bundle : StreamBundle Stream)
      → is_supported b ≡ false
      → get_stream_bundle b (pos 0) ≡ ok bundle
      → bundle.sm_count ≡ pos 0
  pub step_bundle :
      (i : ℤ) (b : B) (sm : ℤ) (gen : ℕ) (bundle : StreamBundle Stream)
      → (activate_for_step i b).0 ≡ ok (sm, gen)
      → get_stream_bundle (activate_for_step i b).1 sm ≡ ok bundle
      → (bundle.sm_count ≡ sm) × (bundle.generation ≡ gen)
