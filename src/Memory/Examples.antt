-- ===== src/Memory/Examples.antt =====
-- Two layouts of parameters, named by numbers: one for pinned and one for shared memory.
use morphling.Prelude.{ℕ, ◌+◌, ◌≤◌, ◌≡◌, refl, some, List, [], ◌∷◌, arith}
use morphling.Py.{ok}
use morphling.Dict.{lookup, put, nat_eq}
use morphling.Memory.{
  compute_pin_offsets, compute_shm_offsets, counter_of, update_shm_offsets, shm_layout, cumsum,
  less_first, names_of_size, place, place_all,
}
use morphling.Memory.Pin.{pin_regions_apart}

-- Names 7, 8, 9 of sizes 16, 32 and 32.
abbrev params : List (ℕ × ℕ)
params = (7, 16) ∷ (8, 32) ∷ (9, 32) ∷ []

pin_regions_apart_example :
    (offset_a : ℕ) × (offset_b : ℕ) × (lookup 7 (compute_pin_offsets params).1 ≡ some offset_a)
    × (lookup 9 (compute_pin_offsets params).1 ≡ some offset_b)
    × (offset_a + 16 ≤ offset_b)
    × (offset_b + 32 ≤ (compute_pin_offsets params).0)
pin_regions_apart_example =
    pin_regions_apart [] 7 16 ((8, 32) ∷ []) 9 32 []
      (((λ h. omega arith), ((λ h. omega arith), tt)), (((λ h. omega arith), tt), (tt, tt)))

counted : counter_of [] (16 ∷ 32 ∷ 32 ∷ []) ≡ (16, 1) ∷ (32, 2) ∷ []
unfolding counter_of lookup put
counted = refl

-- The second region, of 40 bytes at offset 40, does not fit in the 60 bytes.
overrun : compute_shm_offsets params ≡ ok (60, (16, 0) ∷ (32, 40) ∷ [])
unfolding compute_shm_offsets counter_of lookup put shm_layout cumsum less_first
overrun = refl

placed : update_shm_offsets params ≡ ok ((7, 0) ∷ (8, 40) ∷ (9, 44) ∷ [])
unfolding update_shm_offsets compute_shm_offsets counter_of lookup put shm_layout cumsum less_first
    names_of_size place place_all
placed = refl
