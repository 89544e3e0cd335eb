-- ===== src/Metrics/Nics.antt =====
-- morphling/runtime/coordinator_metrics_models.py, aggregate_nic_counters: the sums
-- over the network interfaces that are read.
use morphling.Prelude.{Bool, true, false, Option, none, some, List, [], ◌∷◌, if◌then◌else◌}
use morphling.Prelude.Int.{pos, ◌+ℤ◌}
use morphling.Str.{Str, str_eq, str_leb}
use morphling.Py.{Error, Result, ok, or_raise, ◌>>=◌}
use morphling.Dict.{lookup, keys, str_key}
use morphling.Sort.{sort}
use morphling.Metrics.{NicCounters}

pub record SelectedNicCounters : Type 0 where
  pub nic_names : List Str
  pub counters : NicCounters

abbrev has : Str → List Str → Bool
has name [] = false
has name (s ∷ names) = if str_eq name s then true else has name names

-- `set(names)`; the order does not matter, since the names are sorted.
unfoldable pub distinct : List Str → List Str
distinct [] = []
distinct (s ∷ names) = let rest = distinct names in if has s names then rest else s ∷ rest

-- `sorted(counters if nic_names is None else set(nic_names))`
unfoldable pub selected_names : List (Str × NicCounters) → Option (List Str) → List Str
unfolding distinct
selected_names counters none = sort str_leb (keys counters)
selected_names counters (some names) = sort str_leb (distinct names)

-- The sums over the names; a name without an interface is missing.
unfoldable pub sum_counters : List (Str × NicCounters) → List Str → Result NicCounters
sum_counters counters [] = ok (record { bytes_sent = pos 0; bytes_recv = pos 0 })
sum_counters counters (name ∷ names) = do
  nic ← or_raise Error.key_error (lookup name counters)
  rest ← sum_counters counters names
  ok (record {
    bytes_sent = nic.bytes_sent +ℤ rest.bytes_sent;
    bytes_recv = nic.bytes_recv +ℤ rest.bytes_recv;
  })

unfoldable pub aggregate_nic_counters :
    List (Str × NicCounters) → Option (List Str) → Result SelectedNicCounters
unfolding selected_names sum_counters
aggregate_nic_counters counters nic_names =
    let names = selected_names counters nic_names in
    do sums ← sum_counters counters names; ok (record { nic_names = names; counters = sums })
