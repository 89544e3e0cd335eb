-- ===== src/VTime/Origin.antt =====
-- The shift of all virtual times to an origin.
use mathlib.Core.Path.{subst}
use morphling.Prelude.{
  ◌≡◌, true, refl, sym, ap, Option, none, some, List, [], ◌∷◌, arith, Elem, inl, inr, map, if_ind,
  if◌then◌else◌,
}
use morphling.Prelude.Int.{ℤ, pos, ◌+ℤ◌, ◌-ℤ◌, ◌≤ℤ◌, ◌<ℤ◌, ltb_ℤ, min_ℤ, int_laws}
use morphling.VTime.{VtEvent, ThroughputEvent}
use morphling.VTime.Sync.{
  Table, offset_at, adjust_vtime, adjust_throughput, normalize_vtime, least_positive, min_vt_of,
  synchronized,
}

-- The least of `m` and the positive numbers of `ts` is positive, and no greater than `m`.
least_positive-some :
    (m : ℤ) (ts : List ℤ)
    → pos 0 <ℤ m
    → (r : ℤ) × (least_positive (some m) ts ≡ some r) × (pos 0 <ℤ r) × (r ≤ℤ m)
unfolding least_positive
least_positive-some m [] h = (m, refl, h, omega arith)
least_positive-some m (t ∷ ts) h =
    let best = if ltb_ℤ (pos 0) t then min_ℤ m t else m in
    let (r, found, positive, under) = least_positive-some best ts (ground arith) in
    (r, found, positive, ground arith)

abbrev or_one : Option ℤ → ℤ
or_one none = pos 1
or_one (some n) = n

lt-ltb : (t : ℤ) → pos 0 <ℤ t → ltb_ℤ (pos 0) t ≡ true
lt-ltb t h = ground arith

trans_ℤ : (a b c : ℤ) → a ≤ℤ b → b ≤ℤ c → a ≤ℤ c
trans_ℤ a b c h k = omega arith

best_under : (m t : ℤ) → pos 0 <ℤ t → (if ltb_ℤ (pos 0) t then min_ℤ m t else m) ≤ℤ t
best_under m t h = ground arith

-- None of the positive numbers is less than the result.
least_positive-Elem :
    (least : Option ℤ) (ts : List ℤ) (t : ℤ)
    → pos 0 <ℤ or_one least
    → Elem t ts
    → pos 0 <ℤ t
    → (r : ℤ) × (least_positive least ts ≡ some r) × (pos 0 <ℤ r) × (r ≤ℤ t)
unfolding least_positive
least_positive-Elem least [] t h m p = elim m [ ]
least_positive-Elem none (u ∷ ts) t h (inl here) p =
    let (r, found, positive, under) = least_positive-some t ts p in
    (r, rw (sym here) (rw (lt-ltb t p) found), positive, under)
least_positive-Elem none (u ∷ ts) t h (inr there) p =
    let (r, found, positive, under) =
      least_positive-Elem (if ltb_ℤ (pos 0) u then some u else none) ts t
        (if_ind (λ o. pos 0 <ℤ or_one o) (ltb_ℤ (pos 0) u) (λ e. ground arith) (λ e. omega arith))
        there p in
    (r, found, positive, under)
least_positive-Elem (some m) (u ∷ ts) t h (inl here) p =
    let best = if ltb_ℤ (pos 0) u then min_ℤ m u else m in
    let (r, found, positive, under) = least_positive-some best ts (ground arith) in
    (
      r,
      found,
      positive,
      trans_ℤ r best t under
          (subst (λ v. (if ltb_ℤ (pos 0) v then min_ℤ m v else m) ≤ℤ t) here (best_under m t p)),
    )
least_positive-Elem (some m) (u ∷ ts) t h (inr there) p =
    let best = if ltb_ℤ (pos 0) u then min_ℤ m u else m in
    least_positive-Elem (some best) ts t (ground arith) there p

sub_nonneg : (m a : ℤ) → m ≤ℤ a → pos 0 ≤ℤ a -ℤ m
sub_nonneg m a h = omega int_laws

sub_negative : (m a : ℤ) → pos 0 <ℤ m → a ≤ℤ pos 0 → a -ℤ m <ℤ pos 0
sub_negative m a h k = omega int_laws

shift_difference : (b a offset m : ℤ) → b +ℤ offset -ℤ m -ℤ (a +ℤ offset -ℤ m) ≡ b -ℤ a
shift_difference b a offset m = omega int_laws

Elem-map : {A B : Type 0} (f : A → B) (a : A) (xs : List A) → Elem a xs → Elem (f a) (map f xs)
Elem-map f a [] m = elim m [ ]
Elem-map f a (x ∷ xs) (inl here) = inl (ap f here)
Elem-map f a (x ∷ xs) (inr there) = inr (Elem-map f a xs there)

module _ {F : Type 0} where
  -- The origin is positive, and no positive start lies before it.
  min_vt_of-least :
      (vtime : List VtEvent) (throughput : List (ThroughputEvent F)) (e : VtEvent)
      → Elem e vtime
      → pos 0 <ℤ e.vt_start_us
      → (pos 0 <ℤ min_vt_of vtime throughput) × (min_vt_of vtime throughput ≤ℤ e.vt_start_us)
  unfolding min_vt_of
  min_vt_of-least vtime throughput e m p =
      let (r, found, positive, under) =
        least_positive-Elem none (map (λ e. e.vt_start_us) vtime) e.vt_start_us (omega arith)
          (Elem-map (λ e. e.vt_start_us) e vtime m) p in
      let (s, found', positive', under') =
        least_positive-some r (map (λ e. e.epoch_start_us) throughput) positive in
      rw found (rw found' (positive', trans_ℤ s r e.vt_start_us under' under))

  -- The origin of a log: the least positive start that the adjusted events have.
  abbrev pub origin_of : List VtEvent → List (ThroughputEvent F) → Table → ℤ
  origin_of vtime throughput offsets =
      min_vt_of (map (adjust_vtime offsets) vtime) (map (adjust_throughput offsets) throughput)

  -- An event of the log that lies after zero once its device's offset is added comes out as the same
  -- event, of the same GEMM and device, with its start and its end shifted by that offset less the
  -- origin, which is positive and one for the whole log. It starts at zero or after.
  pub synchronized-after_origin :
      (vtime : List VtEvent) (throughput : List (ThroughputEvent F)) (offsets : Table) (e : VtEvent)
      → Elem e vtime
      → pos 0 <ℤ (adjust_vtime offsets e).vt_start_us
      → (out : VtEvent) × Elem out (synchronized vtime throughput offsets).0
        × (pos 0 ≤ℤ out.vt_start_us)
        × (pos 0 <ℤ origin_of vtime throughput offsets)
        × (out ≡ record e {
          vt_start_us =
              e.vt_start_us
              +ℤ offset_at offsets e.gemm_id e.device_id
              -ℤ origin_of vtime throughput offsets;
          vt_end_us =
              e.vt_end_us
              +ℤ offset_at offsets e.gemm_id e.device_id
              -ℤ origin_of vtime throughput offsets;
        })
  unfolding synchronized adjust_vtime normalize_vtime
  synchronized-after_origin vtime throughput offsets e m p =
      let vtime' = map (adjust_vtime offsets) vtime in
      let throughput' = map (adjust_throughput offsets) throughput in
      let m' = Elem-map (adjust_vtime offsets) e vtime m in
      let min_vt = min_vt_of vtime' throughput' in
      let (positive, least) = min_vt_of-least vtime' throughput' (adjust_vtime offsets e) m' p in
      (
        normalize_vtime min_vt (adjust_vtime offsets e),
        Elem-map (normalize_vtime min_vt) (adjust_vtime offsets e) vtime' m',
        sub_nonneg min_vt (adjust_vtime offsets e).vt_start_us least,
        positive,
        refl,
      )

  -- Where some event lies after zero once its device's offset is added, an event that does not
  -- comes out before zero.
  pub synchronized-before_origin :
      (vtime : List VtEvent) (throughput : List (ThroughputEvent F)) (offsets : Table)
      (e f : VtEvent)
      → Elem e vtime
      → (adjust_vtime offsets e).vt_start_us ≤ℤ pos 0
      → Elem f vtime
      → pos 0 <ℤ (adjust_vtime offsets f).vt_start_us
      → (out : VtEvent) × Elem out (synchronized vtime throughput offsets).0
        × (out.vt_start_us <ℤ pos 0)
  unfolding synchronized adjust_vtime normalize_vtime
  synchronized-before_origin vtime throughput offsets e f m early m_f p =
      let vtime' = map (adjust_vtime offsets) vtime in
      let throughput' = map (adjust_throughput offsets) throughput in
      let min_vt = min_vt_of vtime' throughput' in
      let (positive, least) =
        min_vt_of-least vtime' throughput' (adjust_vtime offsets f)
          (Elem-map (adjust_vtime offsets) f vtime m_f) p in
      (
        normalize_vtime min_vt (adjust_vtime offsets e),
        Elem-map (normalize_vtime min_vt) (adjust_vtime offsets e) vtime'
            (Elem-map (adjust_vtime offsets) e vtime m),
        sub_negative min_vt (adjust_vtime offsets e).vt_start_us positive early,
      )
