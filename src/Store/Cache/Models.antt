-- ===== src/Store/Cache/Models.antt =====
-- router/internal/store/provider.go: what the routing cache tells of its models and its providers. A map
-- that is used as a set is a list that holds each element once.
pub mod Sets
pub mod Laws
pub mod Served
pub mod Selected
use aether_code.Base.{
  ℕ, suc, ◌+◌, Bool, true, false, ◌||◌, List, [], ◌∷◌, ◌++◌, Option, none, some, Text, codes, ◌==◌,
  text_eq, nat_eq, if◌then◌else◌, length, lookup, insert,
}
use aether_code.Text.{trim_space, or_else, text_ltb, sort_texts}
use aether_code.Store.Capability.{seen_in}
use aether_code.Store.Provider.{Time, Provider, normalized_endpoint_capabilities}
use aether_code.Store.Cache.{Cache, is_enabled}

pub record CacheStats : Type 0 where
  pub version : ℕ
  pub last_synced_at : Time
  pub provider_count : ℕ
  pub enabled_provider_count : ℕ
  pub group_count : ℕ
  pub model_count : ℕ
  pub capability_counts : List (Text × ℕ)

pub record ModelMetadata : Type 0 where
  pub id : Text
  pub capabilities : List Text

-- `capabilityCounts[capability]++`
unfoldable pub count_capabilities : List Text → List (Text × ℕ) → List (Text × ℕ)
count_capabilities [] counts = counts
count_capabilities (k ∷ ks) counts =
    count_capabilities ks (insert k (or_else (lookup k counts) 0 + 1) counts)

-- The loop of `Stats`: how many providers are enabled, and how many of them have each capability.
unfoldable pub count_enabled : List (ℕ × Provider) → ℕ × List (Text × ℕ) → ℕ × List (Text × ℕ)
count_enabled [] counted = counted
count_enabled ((id, p) ∷ rows) (n, counts) = count_enabled rows (
    if is_enabled p
    then (n + 1, count_capabilities (normalized_endpoint_capabilities p) counts)
    else (n, counts))

unfoldable pub stats : Cache → CacheStats
stats c =
    let (enabled, counts) = count_enabled c.by_id (0, []) in
    record {
      version = c.version;
      last_synced_at = c.last_synced_at;
      provider_count = length c.by_id;
      enabled_provider_count = enabled;
      group_count = 0;
      model_count = length c.by_model;
      capability_counts = counts;
    }

-- `capabilitySet[capability] = true` for each capability of one provider
unfoldable pub add_capabilities : List Text → List Text → List Text
add_capabilities [] set = set
add_capabilities (k ∷ ks) set = add_capabilities ks (if seen_in set k then set else set ++ k ∷ [])

abbrev pub add_row : Option Provider → List Text → List Text
add_row none set = set
add_row (some p) set =
    if is_enabled p then add_capabilities (normalized_endpoint_capabilities p) set else set

-- The capabilities of the enabled providers behind the ids of one model.
unfoldable pub capability_set : List (ℕ × Provider) → List ℕ → List Text → List Text
capability_set by_id [] set = set
capability_set by_id (id ∷ ids) set = capability_set by_id ids (add_row (lookup id by_id) set)

-- A model with no capability is left out.
abbrev pub list_model : Text → List Text → List ModelMetadata → List ModelMetadata
list_model m [] rest = rest
list_model m (k ∷ ks) rest = record { id = m; capabilities = sort_texts (k ∷ ks) } ∷ rest

unfoldable pub collect_models : List (ℕ × Provider) → List (Text × List ℕ) → List ModelMetadata
collect_models by_id [] = []
collect_models by_id ((m, ids) ∷ entries) =
    let rest = collect_models by_id entries in
    if m == codes "*" then rest else list_model m (capability_set by_id ids []) rest

-- `sort.Slice` by the ids, which differ.
unfoldable pub put_model : ModelMetadata → List ModelMetadata → List ModelMetadata
put_model m [] = m ∷ []
put_model m (n ∷ ns) =
    let rest = put_model m ns in if text_ltb n.id m.id then n ∷ rest else m ∷ n ∷ ns

unfoldable pub sort_models : List ModelMetadata → List ModelMetadata
unfolding put_model
sort_models [] = []
sort_models (m ∷ ms) = put_model m (sort_models ms)

unfoldable pub models : Cache → List ModelMetadata
models c = sort_models (collect_models c.by_id c.by_model)

unfoldable pub find_model : Text → List ModelMetadata → Option ModelMetadata
find_model m [] = none
find_model m (n ∷ ns) = let rest = find_model m ns in if n.id == m then some n else rest

-- `none` stands for `false` with no metadata.
unfoldable pub model : Cache → Text → Option ModelMetadata
unfolding find_model models
model c raw =
    let m = trim_space raw in if m == [] || m == codes "*" then none else find_model m (models c)
