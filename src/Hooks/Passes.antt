-- ===== src/Hooks/Passes.antt =====
-- The numbers of the log's entries through the passes of `LinearFunction`.
use mathlib.Core.Path.{subst}
use morphling.Prelude.{ℕ, ◌<◌, ◌≡◌, refl, sym, Bool, true, false, Option, none, some, arith, if_ind}
use morphling.Prelude.Int.{ℤ}
use morphling.Py.{Result, ok, raise}
use morphling.Hooks.{
  Ops, Hooks, Phase, backward_grad_input, backward_grad_weight, Started, dispatch, wait_for,
  finish_forward, forward, when_needed, collect, collect_both, backward, map_some, grad_bias,
}
use morphling.Hooks.Released.{Ends, and_then-Ends}
use morphling.Hooks.Numbered.{
  AreNumbered, IsInOrder, Same, Pending, HasStarted, Ready, ReadyTwice, Ready-IsInOrder,
  dispatch-HasStarted, wait_for-keeps, log_started-IsInOrder, log_started-Ready, both,
  Same-IsInOrder,
}

module _ {F Mat W G : Type 0} (ops : Ops F Mat W G) where
  -- A second call is dispatched while a first one, or none, is pending.
  Pending-ReadyTwice :
      (o o' : Option ℕ) (h h' : Hooks F W G)
      → (Ready ops) o h
      → h'.gemm_log ≡ h.gemm_log
      → (Pending ops) o' h.gemm_idx h'.gemm_idx
      → (ReadyTwice ops) o o' h'
  Pending-ReadyTwice none none h h' r same next = (Same-IsInOrder ops) h h' r (same, next)
  Pending-ReadyTwice none (some j) h h' r same (here, next) = (
    subst (AreNumbered j) (sym same) (subst (λ n. AreNumbered n h.gemm_log) (sym here) r),
    omega arith,
  )
  Pending-ReadyTwice (some i) none h h' (r, below) same next =
      (subst (AreNumbered i) (sym same) r, omega arith)
  Pending-ReadyTwice (some i) (some j) h h' (r, below) same (here, next) =
      (subst (AreNumbered i) (sym same) r, omega arith, omega arith)

  abbrev number_of : Option (Started F) → Option ℕ
  number_of none = none
  number_of (some s) = s.gemm_idx

  weaken-Ends :
      {A : Type 0} (Q Q' : A → Hooks F W G → Type 0) (R R' : Hooks F W G → Type 0)
      (p : Result A × Hooks F W G)
      → ((a : A) (h : Hooks F W G) → Q a h → Q' a h)
      → ((h : Hooks F W G) → R h → R' h)
      → Ends ops Q R p
      → Ends ops Q' R' p
  weaken-Ends Q Q' R R' (ok a, h) f g e = f a h e
  weaken-Ends Q Q' R R' (raise e, h) f g k = g h k

  dispatch-ReadyTwice :
      (o : Option ℕ) (a b : Mat) (h : Hooks F W G)
      → (Ready ops) o h
      → Ends ops
          (λ s h'. (ReadyTwice ops) o s.gemm_idx h')
          (IsInOrder ops)
          (dispatch ops a b h.greenctx h)
  dispatch-ReadyTwice o a b h r =
      weaken-Ends ((HasStarted ops) h.gemm_log h.gemm_idx)
        (λ s h'. (ReadyTwice ops) o s.gemm_idx h') ((Same ops) h.gemm_log h.gemm_idx)
        (IsInOrder ops) (dispatch ops a b h.greenctx h)
        (λ s h' (same, pending). Pending-ReadyTwice o s.gemm_idx h h' r same pending)
        (λ h' same. (Same-IsInOrder ops) h h' ((Ready-IsInOrder ops) o h r) same)
        ((dispatch-HasStarted ops) h.gemm_log h.gemm_idx a b h.greenctx h (refl, refl))

  wait_for-Ready :
      (o : Option ℕ) (oid : ℤ) (h : Hooks F W G)
      → (Ready ops) o h
      → Ends ops (λ a h. (Ready ops) o h) (IsInOrder ops) (wait_for ops oid h)
  wait_for-Ready none oid h r = (wait_for-keeps ops) (λ log n. AreNumbered n log) oid h r
  wait_for-Ready (some i) oid h r =
      weaken-Ends (λ a h. (Ready ops) (some i) h) (λ a h. (Ready ops) (some i) h)
        ((Ready ops) (some i)) (IsInOrder ops) (wait_for ops oid h) (λ a h k. k)
        ((Ready-IsInOrder ops) (some i))
        ((wait_for-keeps ops) (λ log n. AreNumbered i log × (i < n)) oid h r)

  -- A forward pass keeps the numbers of the log's entries rising and below the next number, whether
  -- it returns or raises.
  pub forward-IsInOrder :
      (input weight : Mat) (bias : Option Mat) (h : Hooks F W G)
      → (IsInOrder ops) h
      → (IsInOrder ops) (forward ops input weight bias h).1
  unfolding forward finish_forward
  forward-IsInOrder input weight bias h i =
      let w = ops.contiguous (ops.transpose weight) in
      (both ops) (forward ops input weight bias h) (
        and_then-Ends ops (λ s h. (Ready ops) s.gemm_idx h) (λ a h. (IsInOrder ops) h)
          (IsInOrder ops) (dispatch ops input w h.greenctx h) (finish_forward ops input weight bias)
          (dispatch-ReadyTwice none input w h i)
          (λ s h' r.
            and_then-Ends ops (λ a h. (Ready ops) s.gemm_idx h) (λ a h. (IsInOrder ops) h)
              (IsInOrder ops) (wait_for ops s.oid h') _ (wait_for-Ready s.gemm_idx s.oid h' r)
              (λ output h'' r'.
                if_ind (IsInOrder ops) h''.gemm_log_enabled
                  (λ _. (log_started-IsInOrder ops) s s.start_us s.gemm_idx _ _ _ _ h'' r')
                  (λ _. (Ready-IsInOrder ops) s.gemm_idx h'' r'))))

  wait_for-ReadyTwice :
      (o o' : Option ℕ) (oid : ℤ) (h : Hooks F W G)
      → ReadyTwice ops o o' h
      → Ends ops (λ a h. ReadyTwice ops o o' h) (IsInOrder ops) (wait_for ops oid h)
  wait_for-ReadyTwice none o' oid h r = wait_for-Ready o' oid h r
  wait_for-ReadyTwice (some i) none oid h r = wait_for-Ready (some i) oid h r
  wait_for-ReadyTwice (some i) (some j) oid h r =
      weaken-Ends (λ a h. ReadyTwice ops (some i) (some j) h)
        (λ a h. ReadyTwice ops (some i) (some j) h) (ReadyTwice ops (some i) (some j))
        (IsInOrder ops) (wait_for ops oid h) (λ a h k. k)
        (λ h (k, less, within). Ready-IsInOrder ops (some i) h (k, omega arith))
        (wait_for-keeps ops (λ log n. AreNumbered i log × (i < j) × (j < n)) oid h r)

  first_needed :
      (needed : Bool) (o : Option ℕ) (a b : Mat) (h : Hooks F W G)
      → Ready ops o h
      → Ends ops
          (λ s h'. ReadyTwice ops o (number_of s) h')
          (IsInOrder ops)
          (when_needed ops needed (λ h. dispatch ops a b h.greenctx h) h)
  first_needed false none a b h r = r
  first_needed false (some i) a b h r = r
  first_needed true o a b h r =
      and_then-Ends ops (λ s h'. ReadyTwice ops o s.gemm_idx h')
        (λ s h'. ReadyTwice ops o (number_of s) h') (IsInOrder ops) (dispatch ops a b h.greenctx h)
        _ (dispatch-ReadyTwice o a b h r) (λ s h' r'. r')

  collect-Ready :
      (phase : Phase) (m n k : ℕ) (s : Option (Started F)) (o : Option ℕ) (h : Hooks F W G)
      → ReadyTwice ops (number_of s) o h
      → Ends ops (λ a h'. Ready ops o h') (IsInOrder ops) (collect ops phase m n k s h)
  unfolding collect
  collect-Ready phase m n k none o h r = r
  collect-Ready phase m n k (some s) o h r =
      and_then-Ends ops (λ a h. ReadyTwice ops s.gemm_idx o h) (λ a h. Ready ops o h)
        (IsInOrder ops) (wait_for ops s.oid h) _ (wait_for-ReadyTwice s.gemm_idx o s.oid h r)
        (λ output h' r'. log_started-Ready ops s s.start_us s.gemm_idx o phase m n k h' r')

  ReadyTwice-none : (o : Option ℕ) (h : Hooks F W G) → Ready ops o h → ReadyTwice ops o none h
  ReadyTwice-none none h r = r
  ReadyTwice-none (some i) h r = r

  collect_both-IsInOrder :
      (input weight : Mat) (bias : Option Mat) (needs_bias : Bool) (grad_output : Mat)
      (gi gw : Option (Started F)) (h : Hooks F W G)
      → ReadyTwice ops (number_of gi) (number_of gw) h
      → Ends ops
          (λ a h. IsInOrder ops h)
          (IsInOrder ops)
          (collect_both ops input weight bias needs_bias grad_output gi gw h)
  unfolding collect_both
  collect_both-IsInOrder input weight bias needs_bias grad_output gi gw h r =
      let rows = ops.rows in
      let columns = ops.columns in
      and_then-Ends ops (λ a h. Ready ops (number_of gw) h) (λ a h. IsInOrder ops h) (IsInOrder ops)
        (collect ops backward_grad_input (rows grad_output) (columns weight) (rows weight) gi h) _
        (collect-Ready backward_grad_input (rows grad_output) (columns weight) (rows weight) gi
          (number_of gw) h r)
        (λ grad_input h' r'.
          and_then-Ends ops (λ a h. IsInOrder ops h) (λ a h. IsInOrder ops h) (IsInOrder ops)
            (collect ops backward_grad_weight (rows weight) (columns weight) (rows input) gw h')
            (λ grad_weight h''. (
              ok (
                grad_input,
                map_some ops ops.transpose grad_weight,
                grad_bias ops needs_bias bias grad_output,
              ),
              h'',
            ))
            (collect-Ready backward_grad_weight (rows weight) (columns weight) (rows input) gw none
              h' (ReadyTwice-none (number_of gw) h' r'))
            (λ grad_weight h'' i. i))

  -- A backward pass keeps the numbers of the log's entries rising and below the next number too,
  -- whichever gradients are needed, and whether it returns or raises.
  pub backward-IsInOrder :
      (input weight : Mat) (bias : Option Mat) (needs_input needs_weight needs_bias : Bool)
      (grad_output : Mat) (h : Hooks F W G)
      → IsInOrder ops h
      → IsInOrder ops
          (backward ops input weight bias needs_input needs_weight needs_bias grad_output h).1
  unfolding backward
  backward-IsInOrder input weight bias needs_input needs_weight needs_bias grad_output h i =
      let dg = ops.contiguous grad_output in
      let dg_t = ops.contiguous (ops.transpose grad_output) in
      let din_t = ops.contiguous (ops.transpose input) in
      both ops (backward ops input weight bias needs_input needs_weight needs_bias grad_output h) (
        and_then-Ends ops (λ s h. Ready ops (number_of s) h) (λ a h. IsInOrder ops h)
          (IsInOrder ops)
          (when_needed ops needs_input (λ h. dispatch ops dg (ops.contiguous weight) h.greenctx h)
            h)
          _ (first_needed needs_input none dg (ops.contiguous weight) h i)
          (λ gi h' r.
            and_then-Ends ops (λ s h. ReadyTwice ops (number_of gi) (number_of s) h)
              (λ a h. IsInOrder ops h) (IsInOrder ops)
              (when_needed ops needs_weight (λ h. dispatch ops dg_t din_t h.greenctx h) h')
              (collect_both ops input weight bias needs_bias grad_output gi)
              (first_needed needs_weight (number_of gi) dg_t din_t h' r)
              (λ gw h'' r'.
                collect_both-IsInOrder input weight bias needs_bias grad_output gi gw h'' r')))
