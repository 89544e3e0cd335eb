-- ===== src/Memory.antt =====
-- morphling/common/types_and_defs.py: the layout of parameters in pinned and in shared memory. A
-- parameter is its name, of any type with `Eq`, and its size; names are the keys of a dictionary,
-- in its order.
pub mod Pin
pub mod Shm
mod Examples
use morphling.Prelude.{
  ℕ, zero, suc, ◌+◌, ◌-◌, ◌*◌, ◌==◌, Option, none, some, List, [], ◌∷◌, sum, map, if◌then◌else◌,
}
use morphling.Py.{Result, ok, raise, index_error, or_raise, key_error, ◌>>=◌}
use morphling.Dict.{Eq, lookup, put, keys, nat_eq}

-- `[param["size"] for param in param_meta_map.values()]`
abbrev pub sizes : {K : Type 0} → List (K × ℕ) → List ℕ
sizes [] = []
sizes ((name, size) ∷ params) = size ∷ sizes params

-- `collections.Counter(list)`: how often each number occurs, in the order of first occurrence.
abbrev pub counted_once : ℕ → Option ℕ → List (ℕ × ℕ) → List (ℕ × ℕ)
counted_once size none counter = put size 1 counter
counted_once size (some n) counter = put size (n + 1) counter

unfoldable pub counter_of : List (ℕ × ℕ) → List ℕ → List (ℕ × ℕ)
counter_of counter [] = counter
counter_of counter (size ∷ rest) = counter_of (counted_once size (lookup size counter) counter) rest

-- `size + 4 * count`
abbrev pub slots : List (ℕ × ℕ) → List ℕ
slots [] = []
slots ((size, count) ∷ counter) = (size + 4 * count) ∷ slots counter

-- `np.cumsum`
unfoldable pub cumsum : ℕ → List ℕ → List ℕ
cumsum acc [] = []
cumsum acc (x ∷ xs) = (acc + x) ∷ cumsum (acc + x) xs

-- `shm_mem_size_cum - shm_mem_size_cum[0]`; the sums do not fall, so no difference is negative.
unfoldable pub less_first : List ℕ → Result (List ℕ)
less_first [] = raise index_error
less_first (c ∷ cs) = ok (map (λ x. x - c) (c ∷ cs))

-- `dict(zip(keys, values))`, for keys that differ.
abbrev pub zip_dict : List ℕ → List ℕ → List (ℕ × ℕ)
zip_dict [] vs = []
zip_dict (k ∷ ks) [] = []
zip_dict (k ∷ ks) (v ∷ vs) = (k, v) ∷ zip_dict ks vs

-- The body of `compute_shm_offsets` over the counter.
unfoldable pub shm_layout : List (ℕ × ℕ) → Result (ℕ × List (ℕ × ℕ))
shm_layout counter = do
  offsets ← less_first (cumsum 0 (slots counter))
  ok (sum (slots counter), zip_dict (keys counter) offsets)

module _ {K : Type 0} ⦃e : Eq K⦄ where
  unfoldable pub compute_shm_offsets : List (K × ℕ) → Result (ℕ × List (ℕ × ℕ))
  unfolding shm_layout
  compute_shm_offsets params = shm_layout (counter_of [] (sizes params))

  -- The loop of `compute_pin_offsets`.
  unfoldable pub pin_loop : ℕ → List (K × ℕ) → List (K × ℕ) → List (K × ℕ)
  pin_loop offset offsets [] = offsets
  pin_loop offset offsets ((name, size) ∷ params) =
      pin_loop (offset + size) (put name offset offsets) params

  unfoldable pub compute_pin_offsets : List (K × ℕ) → ℕ × List (K × ℕ)
  unfolding pin_loop
  compute_pin_offsets params = (sum (sizes params), pin_loop 0 [] params)

  -- The names of a size, in order.
  unfoldable pub names_of_size : ℕ → List (K × ℕ) → List K
  names_of_size size [] = []
  names_of_size size ((name, s) ∷ params) =
      let rest = names_of_size size params in if s == size then name ∷ rest else rest

  -- `for i, name in enumerate(names): ... = base + i * 4`
  unfoldable pub place : ℕ → ℕ → List K → List (K × ℕ) → List (K × ℕ)
  place base i [] placed = placed
  place base i (name ∷ names) placed = place base (i + 1) names (put name (base + i * 4) placed)

  -- The loop of `update_shm_offsets` over the counter; the result is the "shm_offset" of each name.
  unfoldable pub place_all :
      List (ℕ × ℕ) → List (K × ℕ) → List (ℕ × ℕ) → List (K × ℕ) → Result (List (K × ℕ))
  place_all offsets params [] placed = ok placed
  place_all offsets params ((size, count) ∷ counter) placed = do
    base ← or_raise key_error (lookup size offsets)
    place_all offsets params counter (place base 0 (names_of_size size params) placed)

  unfoldable pub update_shm_offsets : List (K × ℕ) → Result (List (K × ℕ))
  unfolding compute_shm_offsets names_of_size place place_all
  update_shm_offsets params = do
    layout ← compute_shm_offsets params
    place_all layout.1 params (counter_of [] (sizes params)) []
