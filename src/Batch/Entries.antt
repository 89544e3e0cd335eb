-- ===== src/Batch/Entries.antt =====
-- The entries of the manifest and their lookup: _extract_manifest_entries to
-- _pick_entry_for_event, and _load_device_profiles.
use morphling.Prelude.{
  Bool, true, false, Option, none, some, List, [], ◌∷◌, ◌++◌, map, if◌then◌else◌,
}
use morphling.Prelude.Int.{ℤ, pos, negsuc, ltb_ℤ}
use morphling.Str.{Str, codes, lower}
use morphling.Py.{Error, Result, raise, ok, ◌>>=◌}
use morphling.Dict.{lookup, put, values, int_eq, pair_eq, str_key}
use morphling.Float.{Float}
use morphling.Json.{
  Json, Object, text, array, object, items_of, fields_of, get, get_or, dicts, to_int, to_float,
  to_bool,
}

-- A normalized entry: a dictionary with fixed keys, and the one that it was read from.
pub record Entry (F : Type 0) : Type 0 where
  pub gemm_id : ℤ
  pub level : ℤ
  pub device_id : ℤ
  pub alpha : F
  pub beta : F
  pub n : F
  pub m_total : F
  pub q_total : F
  pub is_local : Bool
  pub stage_id : ℤ
  pub parallelism_type : Str
  pub raw : Object F

abbrev pub list_keys : List Str
list_keys =
    codes "entries"
    ∷ codes "dispatch_entries"
    ∷ codes "dispatches"
    ∷ codes "sequence"
    ∷ codes "items"
    ∷ []

module _ {F : Type 0} where
  -- The value if it is a list.
  abbrev as_list : Json F → Option (List (Json F))
  as_list (array xs) = some (items_of xs)
  as_list _ = none

  -- The loop over `list_keys`: the first key that holds a list.
  unfoldable pub first_list : List Str → Object F → Option (List (Json F))
  first_list [] manifest = none
  first_list (k ∷ ks) manifest = elim (as_list (get k manifest)) [
    | some xs ↦ some xs
    | none ↦ first_list ks manifest
  ]

  -- `merged.setdefault("level", level)`
  unfoldable pub set_default : Str → Json F → Object F → Object F
  set_default k v raw = elim (lookup k raw) [ some _ ↦ raw | none ↦ raw ++ (k, v) ∷ [] ]

  -- The entries of one level, where the default of a missing "entries" is an empty list.
  unfoldable pub level_entries : Object F → List (Object F)
  unfolding set_default
  level_entries level_item = elim (lookup (codes "entries") level_item) [
    | none ↦ []
    | some v ↦ elim (as_list v) [
      | none ↦ []
      | some xs ↦ map (set_default (codes "level") (get (codes "level") level_item)) (dicts xs)
    ]
  ]

  unfoldable pub all_levels : List (Object F) → List (Object F)
  unfolding level_entries
  all_levels [] = []
  all_levels (item ∷ items) = level_entries item ++ all_levels items

  -- `all("gemm_id" in v for v in value_dicts)`
  unfoldable pub all_have_gemm : List (Object F) → Bool
  all_have_gemm [] = true
  all_have_gemm (d ∷ ds) = elim (lookup (codes "gemm_id") d) [
    | none ↦ false
    | some _ ↦ all_have_gemm ds
  ]

  -- The entries that the values of the manifest are, if they are entries.
  abbrev from_values : List (Object F) → Result (List (Object F))
  from_values [] = raise Error.value_error
  from_values (d ∷ ds) = if all_have_gemm (d ∷ ds) then ok (d ∷ ds) else raise Error.value_error

  -- What the entries of the levels are, if there are any.
  abbrev or_values : List (Object F) → Object F → Result (List (Object F))
  or_values [] manifest = from_values (dicts (values manifest))
  or_values (e ∷ es) manifest = ok (e ∷ es)

  abbrev from_levels : Option (List (Json F)) → Object F → Result (List (Object F))
  from_levels none manifest = from_values (dicts (values manifest))
  from_levels (some levels) manifest = or_values (all_levels (dicts levels)) manifest

  unfoldable pub extract_manifest_entries : Json F → Result (List (Object F))
  unfolding first_list all_levels all_have_gemm
  extract_manifest_entries (array xs) = ok (dicts (items_of xs))
  extract_manifest_entries (object fs) =
      let manifest : Object F = fields_of fs in
      elim (first_list list_keys manifest) [
        | some xs ↦ ok (dicts xs)
        | none ↦ from_levels (as_list (get (codes "levels") manifest)) manifest
      ]
  extract_manifest_entries _ = raise Error.value_error

-- `str(x)` of a value that is no text is a parameter.
module _ {F : Type 0} (f : Float F) (str_of : Json F → Str) where
  abbrev str : Json F → Str
  str (text s) = s
  str v = str_of v

  unfoldable pub normalize_entry : Object F → Result (Entry F)
  normalize_entry raw = do
    gemm_id ← to_int f (get (codes "gemm_id") raw) (negsuc 0)
    level ← to_int f (get (codes "level") raw) (pos 0)
    device_id ← to_int f (get (codes "device_id") raw) (negsuc 0)
    stage_id ← to_int f (get (codes "stage_id") raw) (pos 0)
    ok record {
      gemm_id = gemm_id;
      level = level;
      device_id = device_id;
      alpha = to_float f (get (codes "alpha") raw) f.zero;
      beta = to_float f (get (codes "beta") raw) f.zero;
      n = to_float f (get (codes "n") raw) f.zero;
      m_total = to_float f (get (codes "m_total") raw) f.zero;
      q_total = to_float f (get (codes "q_total") raw) f.zero;
      is_local = to_bool f (get (codes "is_local") raw) false;
      stage_id = stage_id;
      parallelism_type =
          lower (str (get_or (codes "parallelism_type") (get_or (codes "type") (text []) raw) raw));
      raw = raw;
    }

  unfoldable pub normalize_all : List (Object F) → Result (List (Entry F))
  unfolding normalize_entry
  normalize_all [] = ok []
  normalize_all (raw ∷ raws) = do
    entry ← normalize_entry raw
    rest ← normalize_all raws
    ok (entry ∷ rest)

pub record Profile (F : Type 0) : Type 0 where
  pub flops : F
  pub ul_bw : F
  pub dl_bw : F
  pub ul_lat : F
  pub dl_lat : F

module _ {F : Type 0} (f : Float F) where
  -- The dictionaries that hold a profile each.
  unfoldable pub profile_items : Json F → List (Object F)
  profile_items (array xs) = dicts (items_of xs)
  profile_items (object fs) = elim (as_list (get (codes "devices") (fields_of fs))) [
    | some xs ↦ dicts xs
    | none ↦ dicts (values (fields_of fs))
  ]
  profile_items _ = []

  abbrev profile_of : Object F → Profile F
  profile_of item = record {
    flops = to_float f (get (codes "flops") item) f.zero;
    ul_bw = to_float f (get (codes "ul_bw") item) f.zero;
    dl_bw = to_float f (get (codes "dl_bw") item) f.zero;
    ul_lat = to_float f (get (codes "ul_lat") item) f.zero;
    dl_lat = to_float f (get (codes "dl_lat") item) f.zero;
  }

  -- The loop over the items; a negative rank is passed over.
  unfoldable pub add_profiles :
      List (Object F) → List (ℤ × Profile F) → Result (List (ℤ × Profile F))
  add_profiles [] profiles = ok profiles
  add_profiles (item ∷ items) profiles = do
    rank ← to_int f (get_or (codes "rank") (get (codes "device_id") item) item) (negsuc 0)
    add_profiles items
        (if ltb_ℤ rank (pos 0) then profiles else put rank (profile_of item) profiles)

  -- Without a path there are no profiles.
  unfoldable pub load_device_profiles : Option (Json F) → Result (List (ℤ × Profile F))
  unfolding profile_items add_profiles
  load_device_profiles none = ok []
  load_device_profiles (some raw) = add_profiles (profile_items raw) []
