-- ===== src/Config/Emulator.antt =====
-- morphling/common/config.py, EmulatorConfig.__post_init__: the sizes that the emulator publishes in
-- the environment.
use morphling.Prelude.{
  ℕ, ◌*◌, ◌≡◌, refl, ◌∙◌, Bool, Bool-cases, inl, inr, ◌⊎◌, false, Option, none, some, List, sum,
  arith, if◌then◌else◌,
}
use morphling.Prelude.Int.{ℤ, pos, ◌-ℤ◌, ◌<ℤ◌, ◌≤ℤ◌, ltb_ℤ, scale, int_laws}
use morphling.Str.{Str, codes, show}
use morphling.Py.{Error, Result, raise, ok}
use morphling.Dict.{lookup, put, lookup-put, lookup-put_self, str_key}
use morphling.Memory.{sizes, compute_shm_offsets, compute_pin_offsets}

abbrev pub gb : ℕ
gb = 1024 * 1024 * 1024

pub record EmulatorConfig : Type 0 where
  pub gpu_memory : ℤ
  pub cpu_memory : ℤ
  pub ckpt_path : Str
  pub listen_port : ℤ
  pub listen_ip : Str
  pub debug : Bool

-- `os.environ`
abbrev pub Environ : Type 0
Environ = List (Str × Str)

-- The map of parameters, by name; `none` when its file is missing.
abbrev pub ParamFile : Type 0
ParamFile = Option (List (Str × ℕ))

-- Memory in bytes, where the fields count gigabytes.
unfoldable pub in_bytes : EmulatorConfig → EmulatorConfig
in_bytes c = record c { gpu_memory = scale c.gpu_memory gb; cpu_memory = scale c.cpu_memory gb }

unfoldable pub publish_sizes : ℤ → ℕ → Environ → Environ
publish_sizes cpu_memory pin_mem_size env =
    put (codes "MORPHLING_SHM_SIZE") (show (cpu_memory -ℤ pos pin_mem_size))
      (put (codes "MORPHLING_PIN_SIZE") (show (pos pin_mem_size)) env)

-- What follows the reading of the map; the layout of shared memory is computed and not used.
unfoldable pub with_params :
    EmulatorConfig → List (Str × ℕ) → Environ → Result EmulatorConfig × Environ
unfolding publish_sizes
with_params c params env = elim (compute_shm_offsets params) [
  | raise e ↦ (raise e, env)
  | ok layout ↦
      let pin_mem_size = (compute_pin_offsets params).0 in
      (
        if ltb_ℤ (pos pin_mem_size) c.cpu_memory then ok c else raise Error.assertion_error,
        publish_sizes c.cpu_memory pin_mem_size env,
      )
]

-- `__post_init__`: the configuration or the exception, and the environment.
unfoldable pub post_init : EmulatorConfig → ParamFile → Environ → Result EmulatorConfig × Environ
unfolding in_bytes with_params
post_init c file env =
    let c' = in_bytes c in
    let env' =
      put (codes "MORPHLING_GPU_SIZE") (show c'.gpu_memory)
        (put (codes "MORPHLING_CKPT_PATH") c'.ckpt_path env) in
    elim file [
      | none ↦ (raise Error.file_not_found_error, env')
      | some params ↦ with_params c' params env'
    ]

-- With a map of parameters that has a layout, the environment holds the size of pinned memory, which
-- is the sum of the parameters, and that of the CPU memory in bytes less it. The configuration is
-- made if the memory is larger than the parameters; else an AssertionError is raised, and the
-- environment holds the sizes all the same, of which that of shared memory is not positive.
pub post_init-sizes :
    (c : EmulatorConfig) (params : List (Str × ℕ)) (env : Environ) {layout : ℕ × List (ℕ × ℕ)}
    → compute_shm_offsets params ≡ ok layout
    → (lookup (codes "MORPHLING_PIN_SIZE") (post_init c (some params) env).1
        ≡ some (show (pos (sum (sizes params)))))
      × (lookup (codes "MORPHLING_SHM_SIZE") (post_init c (some params) env).1
          ≡ some (show (scale c.cpu_memory gb -ℤ pos (sum (sizes params)))))
      × (((pos (sum (sizes params)) <ℤ scale c.cpu_memory gb)
            × ((post_init c (some params) env).0 ≡ ok (in_bytes c)))
          ⊎ ((scale c.cpu_memory gb -ℤ pos (sum (sizes params)) ≤ℤ pos 0)
              × ((post_init c (some params) env).0 ≡ raise Error.assertion_error)))
unfolding post_init with_params publish_sizes in_bytes compute_pin_offsets
post_init-sizes c params env laid =
    let size = sum (sizes params) in
    let cpu = scale c.cpu_memory gb in
    let shown = show (cpu -ℤ pos size) in
    let env' =
      put (codes "MORPHLING_GPU_SIZE") (show (scale c.gpu_memory gb))
        (put (codes "MORPHLING_CKPT_PATH") c.ckpt_path env) in
    let pinned = put (codes "MORPHLING_PIN_SIZE") (show (pos size)) env' in
    rw (with_params, laid)
      (
        lookup-put (codes "MORPHLING_SHM_SIZE") (codes "MORPHLING_PIN_SIZE") shown pinned
            ∙ lookup-put_self (codes "MORPHLING_PIN_SIZE") (show (pos size)) env',
        lookup-put_self (codes "MORPHLING_SHM_SIZE") shown pinned,
        elim (Bool-cases (ltb_ℤ (pos size) cpu)) [
          | inl fits ↦ inl (ground arith, rw fits refl)
          | inr over ↦ inr (not_positive cpu size over, rw over refl)
        ],
      )
  where
    not_positive : (cpu : ℤ) (n : ℕ) → ltb_ℤ (pos n) cpu ≡ false → (cpu -ℤ pos n) ≤ℤ pos 0
    not_positive cpu n over = let below : cpu ≤ℤ pos n = ground arith in omega int_laws
