-- ===== src/VTime/Direction.antt =====
-- The sign of the offsets: whom `earliest` and `latest` move, and which way.
use mathlib.Core.Path.{subst}
use morphling.Prelude.{◌≡◌, refl, List, [], ◌∷◌, arith, All, inl, inr, Bool-cases}
use morphling.Prelude.Int.{ℤ, pos, ◌-ℤ◌, ◌≤ℤ◌, eqb_ℤ, min_ℤ, max_ℤ, int_laws}
use morphling.Py.{ok, >>=-eq-ok}
use morphling.Dict.{lookup, values, int_eq}
use morphling.VTime.Sync.{
  Table, Method, earliest, latest, unknown, fold, baseline, device_offsets, calculate_offsets,
  or_empty, or_zero, offset_at,
}

-- With `latest` a device is moved forward or not at all, with `earliest` back or not at all.
abbrev pub IsTowards : Method → ℤ → Type 0
IsTowards earliest offset = offset ≤ℤ pos 0
IsTowards latest offset = pos 0 ≤ℤ offset
IsTowards unknown offset = offset ≡ pos 0

-- The baseline lies on the method's side of a time.
abbrev Bounds : Method → ℤ → ℤ → Type 0
Bounds earliest base v = base ≤ℤ v
Bounds latest base v = v ≤ℤ base
Bounds unknown base v = ⊥

fold_min :
    (best : ℤ) (vs : List ℤ) → (fold min_ℤ best vs ≤ℤ best) × All (λ v. fold min_ℤ best vs ≤ℤ v) vs
unfolding fold
fold_min best [] = (omega arith, tt)
fold_min best (v ∷ vs) =
    let (under, all) = fold_min (min_ℤ best v) vs in (ground arith, (ground arith, all))

fold_max :
    (best : ℤ) (vs : List ℤ) → (best ≤ℤ fold max_ℤ best vs) × All (λ v. v ≤ℤ fold max_ℤ best vs) vs
unfolding fold
fold_max best [] = (omega arith, tt)
fold_max best (v ∷ vs) =
    let (over, all) = fold_max (max_ℤ best v) vs in (ground arith, (ground arith, all))

baseline-Bounds :
    (method : Method) (v : ℤ) (vs : List ℤ) (base : ℤ)
    → baseline method v vs ≡ ok base
    → Bounds method base v × All (Bounds method base) vs
unfolding baseline
baseline-Bounds earliest v vs base h =
    let same : fold min_ℤ v vs ≡ base = cc in
    subst (λ b. (b ≤ℤ v) × All (λ w. b ≤ℤ w) vs) same (fold_min v vs)
baseline-Bounds latest v vs base h =
    let same : fold max_ℤ v vs ≡ base = cc in
    subst (λ b. (v ≤ℤ b) × All (λ w. w ≤ℤ b) vs) same (fold_max v vs)
baseline-Bounds unknown v vs base h = cc

zero-IsTowards : (method : Method) → IsTowards method (pos 0)
zero-IsTowards earliest = omega arith
zero-IsTowards latest = omega arith
zero-IsTowards unknown = refl

sub-IsTowards : (method : Method) (base v : ℤ) → Bounds method base v → IsTowards method (base -ℤ v)
sub-IsTowards earliest base v h = omega int_laws
sub-IsTowards latest base v h = omega int_laws
sub-IsTowards unknown base v h = elim h [ ]

device_offsets-IsTowards :
    (method : Method) (base device : ℤ) (times : List (ℤ × ℤ))
    → All (Bounds method base) (values times)
    → IsTowards method (or_zero (lookup device (device_offsets base times)))
unfolding lookup device_offsets
device_offsets-IsTowards method base device [] h = zero-IsTowards method
device_offsets-IsTowards method base device ((d, v) ∷ times) h =
    elim (Bool-cases (eqb_ℤ d device)) [
      | inl same ↦ rw same (sub-IsTowards method base v h.0)
      | inr other ↦ rw other (device_offsets-IsTowards method base device times h.1)
    ]

-- Whatever the operation and the device, `latest` only moves a device's virtual time forward and
-- `earliest` only moves it back.
pub calculate_offsets-IsTowards :
    (method : Method) (table offsets : Table) (gemm device : ℤ)
    → calculate_offsets method table ≡ ok offsets
    → IsTowards method (offset_at offsets gemm device)
unfolding lookup offset_at calculate_offsets
calculate_offsets-IsTowards method [] offsets gemm device e =
    let made : [] ≡ offsets = cc in
    subst (λ o. IsTowards method (or_zero (lookup device (or_empty (lookup gemm o))))) made
      (zero-IsTowards method)
calculate_offsets-IsTowards method ((g, []) ∷ table) offsets gemm device e =
    calculate_offsets-IsTowards method table offsets gemm device e
calculate_offsets-IsTowards method ((g, (d, v) ∷ times) ∷ table) offsets gemm device e =
    let (base, based, e') = >>=-eq-ok (baseline method v (values times)) _ e in
    let (rest, calculated, e'') = >>=-eq-ok (calculate_offsets method table) _ e' in
    let made : (g, device_offsets base ((d, v) ∷ times)) ∷ rest ≡ offsets = cc in
    subst (λ o. IsTowards method (or_zero (lookup device (or_empty (lookup gemm o))))) made
      (elim (Bool-cases (eqb_ℤ g gemm)) [
        | inl same ↦ rw same (
            device_offsets-IsTowards method base device ((d, v) ∷ times)
              (baseline-Bounds method v (values times) base based))
        | inr other ↦
            rw other (calculate_offsets-IsTowards method table rest gemm device calculated)
      ])
