-- ===== src/Config/Examples.antt =====
-- Sizes over numbers as floats, and an emulator of one gigabyte with one parameter.
use mathlib.Core.Option
use morphling.Prelude.{
  ℕ, ◌+◌, ◌*◌, ◌/◌, ◌==◌, ◌≡◌, refl, ap, inl, inr, ◌⊎◌, false, not, some, List, [], ◌∷◌, ◌++◌, sum,
  arith, ltb, leb,
}
use morphling.Prelude.Int.{pos, pos_part, ◌-ℤ◌, ◌<ℤ◌, ◌≤ℤ◌, scale}
use morphling.Str.{Str, codes, show, show_ℕ, int_of, int_of-show}
use morphling.Py.{Error, raise, ok}
use morphling.Dict.{lookup, put, str_key}
use morphling.Float.{Float}
use morphling.Memory.{sizes, compute_shm_offsets, less_first, cumsum, counter_of}
use morphling.Config.{whole, human2bytes}
use morphling.Config.Units.{IsExact, human2bytes-units}
use morphling.Config.Emulator.{EmulatorConfig, gb, in_bytes, post_init, post_init-sizes}

abbrev numbers : Float ℕ
numbers = record {
  zero = 0;
  one = 1;
  plus = λ a b. a + b;
  times = λ a b. a * b;
  over = λ a b. a / b;
  total = sum;
  less = ltb;
  at_most = leb;
  truth = λ a. not (a == 0);
  of_int = pos_part;
  of_text = λ s. Option.map pos_part (int_of s);
  int_of = λ a. ok (pos a);
}

numbers-AreExact : IsExact numbers
unfolding show
numbers-AreExact = record {
  reads = λ n small. ap (Option.map pos_part) (int_of-show (pos n));
  multiplies = λ n letter p small m. refl;
}

human2bytes-units_example :
    human2bytes numbers (show_ℕ 12 ++ 32 ∷ codes "K") ≡ ok (whole (pos 12288))
human2bytes-units_example =
    human2bytes-units numbers numbers-AreExact 12 (codes "K") 1024 (omega arith) (inr (inl refl))

abbrev config : EmulatorConfig
config = record {
  gpu_memory = pos 1;
  cpu_memory = pos 1;
  ckpt_path = codes "checkpoints";
  listen_port = pos 39000;
  listen_ip = codes "0.0.0.0";
  debug = false;
}

abbrev params : List (Str × ℕ)
params = (codes "weight", 400) ∷ []

params_laid : compute_shm_offsets params ≡ ok (404, (400, 0) ∷ [])
unfolding compute_shm_offsets less_first cumsum counter_of lookup put
params_laid = refl

post_init-sizes_example :
    (lookup (codes "MORPHLING_PIN_SIZE") (post_init config (some params) []).1
      ≡ some (show (pos (sum (sizes params)))))
    × (lookup (codes "MORPHLING_SHM_SIZE") (post_init config (some params) []).1
        ≡ some (show (scale (pos 1) gb -ℤ pos (sum (sizes params)))))
    × (((pos (sum (sizes params)) <ℤ scale (pos 1) gb)
          × ((post_init config (some params) []).0 ≡ ok (in_bytes config)))
        ⊎ ((scale (pos 1) gb -ℤ pos (sum (sizes params)) ≤ℤ pos 0)
            × ((post_init config (some params) []).0 ≡ raise Error.assertion_error)))
post_init-sizes_example = post_init-sizes config params [] params_laid
