-- ===== src/Hooks/Numbered.antt =====
-- The numbers of the entries in the log of GEMM calls.
use mathlib.Core.Path.{subst}
use morphling.Prelude.{
  ℕ, ◌+◌, ◌<◌, ◌≤◌, ◌≡◌, refl, sym, ap, Option, none, some, List, [], ◌∷◌, ◌++◌, arith, All,
  All-append, if_ind,
}
use morphling.Prelude.Int.{ℤ, pos, ltb_ℤ}
use morphling.Py.{Result, ok, raise}
use morphling.GreenCtx.Base.{Activation}
use morphling.Hooks.{
  Entry, Ops, Hooks, Phase, Started, elapsed_us, numbered, dispatch_active, dispatch_after,
  dispatch, wait_for, log_started, log_gemm,
}
use morphling.Hooks.Released.{Ends, and_then-Ends}

module _ {F : Type 0} where
  -- The numbers rise along the log.
  abbrev pub AreRising : List (Entry F) → Type 0
  AreRising [] = Unit
  AreRising (e ∷ es) = All (λ f. e.gemm_idx < f.gemm_idx) es × AreRising es

  -- They rise, and are all below `n`.
  abbrev pub AreNumbered : ℕ → List (Entry F) → Type 0
  AreNumbered n log = All (λ e. e.gemm_idx < n) log × AreRising log

  All-below :
      (i n : ℕ) (log : List (Entry F))
      → i ≤ n
      → All (λ e. e.gemm_idx < i) log
      → All (λ e. e.gemm_idx < n) log
  All-below i n [] h a = tt
  All-below i n (e ∷ log) h a = (omega arith, All-below i n log h a.1)

  append-AreRising :
      (log : List (Entry F)) (e : Entry F)
      → All (λ f. f.gemm_idx < e.gemm_idx) log
      → AreRising log
      → AreRising (log ++ e ∷ [])
  append-AreRising [] e a r = (tt, tt)
  append-AreRising (f ∷ log) e a r = (
    All-append (λ g. f.gemm_idx < g.gemm_idx) log (e ∷ []) r.0 (a.0, tt),
    append-AreRising log e a.1 r.1,
  )

  -- An entry with a number that the others lie below.
  append-AreNumbered :
      (log : List (Entry F)) (e : Entry F) (n : ℕ)
      → AreNumbered e.gemm_idx log
      → e.gemm_idx < n
      → AreNumbered n (log ++ e ∷ [])
  append-AreNumbered log e n (a, r) h = (
    All-append (λ f. f.gemm_idx < n) log (e ∷ []) (All-below e.gemm_idx n log (omega arith) a)
        (h, tt),
    append-AreRising log e a r,
  )

module _ {F Mat W G : Type 0} (ops : Ops F Mat W G) where
  abbrev pub IsInOrder : Hooks F W G → Type 0
  IsInOrder h = AreNumbered h.gemm_idx h.gemm_log

  -- The log and the next number are these.
  abbrev pub Same : List (Entry F) → ℕ → Hooks F W G → Type 0
  Same log n h = (h.gemm_log ≡ log) × (h.gemm_idx ≡ n)

  -- A call has taken the number `n`, or none.
  abbrev pub Pending : Option ℕ → ℕ → ℕ → Type 0
  Pending none n n' = n' ≡ n
  Pending (some i) n n' = (i ≡ n) × (n' ≡ n + 1)

  abbrev pub HasStarted : List (Entry F) → ℕ → Started F → Hooks F W G → Type 0
  HasStarted log n s h = (h.gemm_log ≡ log) × Pending s.gemm_idx n h.gemm_idx

  -- Ready for the entry of a pending call.
  abbrev pub Ready : Option ℕ → Hooks F W G → Type 0
  Ready none h = IsInOrder h
  Ready (some i) h = AreNumbered i h.gemm_log × (i < h.gemm_idx)

  -- Ready for the entries of two calls, in this order.
  abbrev pub ReadyTwice : Option ℕ → Option ℕ → Hooks F W G → Type 0
  ReadyTwice none o h = Ready o h
  ReadyTwice (some i) none h = Ready (some i) h
  ReadyTwice (some i) (some j) h = AreNumbered i h.gemm_log × (i < j) × (j < h.gemm_idx)

  pub Ready-IsInOrder : (o : Option ℕ) (h : Hooks F W G) → Ready o h → IsInOrder h
  Ready-IsInOrder none h r = r
  Ready-IsInOrder (some i) h ((below, rising), r) =
      (All-below i h.gemm_idx h.gemm_log (omega arith) below, rising)

  any-Same :
      {A : Type 0} (log : List (Entry F)) (n : ℕ) (r : Result A) (h : Hooks F W G)
      → Same log n h
      → Ends ops (λ a h. Same log n h) (Same log n) (r, h)
  any-Same log n (ok a) h s = s
  any-Same log n (raise e) h s = s

  elapsed_us-Same :
      (log : List (Entry F)) (n : ℕ) (h : Hooks F W G)
      → Same log n h
      → Same log n (elapsed_us ops h).1
  unfolding elapsed_us
  elapsed_us-Same log n h s =
      if_ind (λ (q : F × Hooks F W G). Same log n q.1) (ops.is_zero h.greenctx_t0) (λ _. s) (λ _. s)

  numbered-HasStarted :
      (log : List (Entry F)) (n : ℕ) (start_us : F) (sm oid : ℤ) (h : Hooks F W G)
      → Same log n h
      → HasStarted log n (numbered ops start_us sm oid h).0 (numbered ops start_us sm oid h).1
  unfolding numbered
  numbered-HasStarted log n start_us sm oid h (same, next) =
      if_ind (λ (q : Started F × Hooks F W G). HasStarted log n q.0 q.1) h.gemm_log_enabled
        (λ _. (same, (next, ap (λ k. k + 1) next))) (λ _. (same, next))

  dispatch_after-HasStarted :
      (log : List (Entry F)) (n : ℕ) (a b : Mat) (start_us : F) (p : Result Activation × G)
      (h : Hooks F W G)
      → Same log n h
      → Ends ops (HasStarted log n) (Same log n) (dispatch_after ops a b start_us p h)
  unfolding dispatch_after dispatch_active
  dispatch_after-HasStarted log n a b start_us (raise e, g) h s = s
  dispatch_after-HasStarted log n a b start_us (ok (sm, generation), g) h s =
      let (r, w) = ops.async_dispatch_matmul a b h.backend in
      let h' = record h { backend = w; greenctx = some (ops.deactivate sm g) } in
      and_then-Ends ops (λ a h. Same log n h) (HasStarted log n) (Same log n) (r, h') _
        (any-Same log n r h' s) (λ oid h'' s''. numbered-HasStarted log n start_us sm oid h'' s'')

  pub dispatch-HasStarted :
      (log : List (Entry F)) (n : ℕ) (a b : Mat) (o : Option G) (h : Hooks F W G)
      → Same log n h
      → Ends ops (HasStarted log n) (Same log n) (dispatch ops a b o h)
  unfolding dispatch
  dispatch-HasStarted log n a b none h s =
      let (r, w) = ops.async_dispatch_matmul a b h.backend in
      and_then-Ends ops (λ a h. Same log n h) (HasStarted log n) (Same log n)
        (r, record h { backend = w }) _ (any-Same log n r (record h { backend = w }) s)
        (λ oid h' s'. s')
  dispatch-HasStarted log n a b (some g) h s =
      let (start_us, h') = elapsed_us ops h in
      dispatch_after-HasStarted log n a b start_us (ops.activate_for_time (ops.truncate start_us) g)
        h' (elapsed_us-Same log n h s)

  -- Waiting keeps what holds of the log and the next number.
  pub wait_for-keeps :
      (P : List (Entry F) → ℕ → Type 0) (oid : ℤ) (h : Hooks F W G)
      → P h.gemm_log h.gemm_idx
      → Ends ops
          (λ a h. P h.gemm_log h.gemm_idx)
          (λ h. P h.gemm_log h.gemm_idx)
          (wait_for ops oid h)
  unfolding wait_for
  wait_for-keeps P oid h p =
      let (r, w) = ops.wait_matmul oid h.backend in
      if_ind (Ends ops (λ a h. P h.gemm_log h.gemm_idx) (λ h. P h.gemm_log h.gemm_idx))
        (ltb_ℤ oid (pos 0)) (λ _. p) (λ _. any r (record h { backend = w }) p)
    where
      any :
          (r : Result Mat) (h : Hooks F W G)
          → P h.gemm_log h.gemm_idx
          → Ends ops (λ a h. P h.gemm_log h.gemm_idx) (λ h. P h.gemm_log h.gemm_idx) (r, h)
      any (ok a) h p = p
      any (raise e) h p = p

  pub log_started-IsInOrder :
      (s : Started F) (start : Option F) (o : Option ℕ) (phase : Phase) (m n k : ℕ)
      (h : Hooks F W G)
      → Ready o h
      → IsInOrder (log_started ops s start o phase m n k h)
  unfolding log_started log_gemm
  log_started-IsInOrder s none none phase m n k h r = r
  log_started-IsInOrder s (some start) none phase m n k h r = r
  log_started-IsInOrder s none (some i) phase m n k h r = Ready-IsInOrder (some i) h r
  log_started-IsInOrder s (some start) (some i) phase m n k h (r, below) =
      let (same, next) = elapsed_us-Same h.gemm_log h.gemm_idx h (refl, refl) in
      append-AreNumbered (elapsed_us ops h).1.gemm_log _ (elapsed_us ops h).1.gemm_idx
        (subst (AreNumbered i) (sym same) r) (subst (λ n. i < n) (sym next) below)

  pub log_started-Ready :
      (s : Started F) (start : Option F) (o o' : Option ℕ) (phase : Phase) (m n k : ℕ)
      (h : Hooks F W G)
      → ReadyTwice o o' h
      → Ready o' (log_started ops s start o phase m n k h)
  unfolding log_started log_gemm
  log_started-Ready s none none o' phase m n k h r = r
  log_started-Ready s (some start) none o' phase m n k h r = r
  log_started-Ready s start (some i) none phase m n k h r =
      log_started-IsInOrder s start (some i) phase m n k h r
  log_started-Ready s none (some i) (some j) phase m n k h ((below, rising), less, within) =
      ((All-below i j h.gemm_log (omega arith) below, rising), within)
  log_started-Ready s (some start) (some i) (some j) phase m n k h (r, less, within) =
      let (same, next) = elapsed_us-Same h.gemm_log h.gemm_idx h (refl, refl) in
      (
        append-AreNumbered (elapsed_us ops h).1.gemm_log _ j (subst (AreNumbered i) (sym same) r)
            less,
        subst (λ n. j < n) (sym next) within,
      )

  pub both :
      {A : Type 0} (p : Result A × Hooks F W G)
      → Ends ops (λ a h. IsInOrder h) IsInOrder p
      → IsInOrder p.1
  both (ok a, h) i = i
  both (raise e, h) i = i

  pub Same-IsInOrder :
      (h h' : Hooks F W G) → IsInOrder h → Same h.gemm_log h.gemm_idx h' → IsInOrder h'
  Same-IsInOrder h h' i (same, next) =
      subst (λ l. AreNumbered h'.gemm_idx l) (sym same)
        (subst (λ n. AreNumbered n h.gemm_log) (sym next) i)
