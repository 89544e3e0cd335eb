-- ===== src/GreenCtx/Controller/Swaps.antt =====
-- morphling/runtime/green_context.py, get_swap_stats to reset_swap_stats and __del__: the methods of
-- the controller that ask the backend for a method that it may lack.
use morphling.Prelude.{not, Option, none, some, List, [], if◌then◌else◌}
use morphling.GreenCtx.Base.{Backend}
use morphling.GreenCtx.Controller.{Controller, close}

-- `getattr(backend, name, None)` of the three names.
pub record SwapMethods (B Stats Swap : Type 0) : Type 0 where
  pub stats_method : Option (B → Stats)
  pub log_method : Option (B → List Swap)
  pub reset_method : Option (B → B)

module _ {B Stream Stats Swap : Type 0} (methods : SwapMethods B Stats Swap) where
  -- `no_swaps` is the dictionary of zeros.
  unfoldable pub get_swap_stats : Stats → Controller B Stream → Stats
  get_swap_stats no_swaps c = elim methods.stats_method [
    | none ↦ no_swaps
    | some get_stats ↦ get_stats c.backend
  ]

  unfoldable pub get_swap_log : Controller B Stream → List Swap
  get_swap_log c = elim methods.log_method [ none ↦ [] | some get_log ↦ get_log c.backend ]

  unfoldable pub reset_swap_stats : Controller B Stream → Controller B Stream
  reset_swap_stats c = elim methods.reset_method [
    | none ↦ c
    | some reset ↦ record c { backend = reset c.backend }
  ]

-- `__del__`
unfoldable pub delete :
    {B Stream : Type 0} → Backend B Stream → Controller B Stream → Controller B Stream
unfolding close
delete ops c = if not c.closed then close ops c else c
