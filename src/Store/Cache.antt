-- ===== src/Store/Cache.antt =====
-- router/internal/store/provider.go: the routing cache, its rebuild and the selection of a provider.
-- A map that is used as a set is a list; the iteration order of a map is that of its list.
pub mod Pick
pub mod Order
pub mod Index
pub mod Candidates
pub mod Select
pub mod Models
use aether_code.Base.{
  ℕ, ◌+◌, Bool, true, false, ◌&&◌, ◌||◌, not, List, [], ◌∷◌, ◌++◌, map, Option, none, some, Text,
  codes, ◌==◌, text_eq, nat_eq, int_eq, ℤ, pos, ltb, ltb_ℤ, if◌then◌else◌, any, keep, length,
  lookup, insert, Result, ok, err,
}
use aether_code.Text.{trim_space, or_else}
use aether_code.Store.Capability.{normalize_endpoint_capability}
use aether_code.Store.Provider.{
  Time, Provider, status_enabled, apply_defaults, model_list, supports_capability,
  normalized_endpoint_capabilities,
}
use Pick.{pick_weighted}

pub record Cache : Type 0 where
  pub version : ℕ
  pub last_synced_at : Time
  pub by_id : List (ℕ × Provider)
  pub by_model : List (Text × List ℕ)

unfoldable pub new_cache : Cache
new_cache = record { version = 0; last_synced_at = 0; by_id = []; by_model = [] }

-- What a Go map lookup gives for a missing row.
abbrev pub zero_provider : Provider
zero_provider = record {
  id = 0;
  platform_channel_id = 0;
  name = [];
  provider = [];
  base_url = [];
  api_key = [];
  auth_header = [];
  auth_prefix = [];
  models = [];
  groups = [];
  model_mapping = none;
  headers = none;
  endpoint_capabilities = [];
  channel_type = [];
  relay_format = [];
  status = pos 0;
  weight = 0;
  priority = pos 0;
  created_at = 0;
  updated_at = 0;
}

abbrev pub row_of : List (ℕ × Provider) → ℕ → Provider
row_of by_id id = or_else (lookup id by_id) zero_provider

abbrev pub ids_of : Text → List (Text × List ℕ) → List ℕ
ids_of model by_model = or_else (lookup model by_model) []

-- `byModel[model] = append(byModel[model], id)` for each model of one provider
unfoldable pub add_models : ℕ → List Text → List (Text × List ℕ) → List (Text × List ℕ)
add_models id [] by_model = by_model
add_models id (model ∷ models) by_model =
    add_models id models (insert model (ids_of model by_model ++ id ∷ []) by_model)

abbrev pub is_enabled : Provider → Bool
is_enabled p = p.status == status_enabled

-- The first loop of `Replace`, over rows that have their defaults.
unfoldable pub index_rows :
    List Provider
    → List (ℕ × Provider) × List (Text × List ℕ)
    → List (ℕ × Provider) × List (Text × List ℕ)
index_rows [] maps = maps
index_rows (raw ∷ rows) (by_id, by_model) =
    let p = apply_defaults raw in
    index_rows rows (
      insert p.id p by_id,
      (if is_enabled p then add_models p.id (model_list p) by_model else by_model),
    )

-- Higher priority first, then the lower id.
unfoldable pub before : List (ℕ × Provider) → ℕ → ℕ → Bool
before by_id i j =
    let left = row_of by_id i in
    let right = row_of by_id j in
    if left.priority == right.priority
    then ltb left.id right.id
    else ltb_ℤ right.priority left.priority

-- `sort.SliceStable`: an element goes in front of the first later one that is not before it.
module _ (less : ℕ → ℕ → Bool) where
  unfoldable pub place : ℕ → List ℕ → List ℕ
  place x [] = x ∷ []
  place x (y ∷ ys) = let rest = place x ys in if less y x then y ∷ rest else x ∷ y ∷ ys

  unfoldable pub sort_stable : List ℕ → List ℕ
  unfolding place
  sort_stable [] = []
  sort_stable (x ∷ xs) = place x (sort_stable xs)

-- The second loop of `Replace`.
unfoldable pub sort_entries : List (ℕ × Provider) → List (Text × List ℕ) → List (Text × List ℕ)
sort_entries by_id [] = []
sort_entries by_id ((model, ids) ∷ entries) =
    (model, sort_stable (before by_id) ids) ∷ sort_entries by_id entries

-- A rebuilt cache takes the place of the old one as a whole.
unfoldable pub replace : List Provider → ℕ → Time → Cache
replace providers version now =
    let (by_id, by_model) = index_rows providers ([], []) in
    record {
      version = version;
      last_synced_at = now;
      by_id = by_id;
      by_model = sort_entries by_id by_model;
    }

-- `idsForLocked`
abbrev first_of_two : List ℕ → List ℕ → List ℕ
first_of_two [] ids = ids
first_of_two (i ∷ is) ids = i ∷ is

unfoldable pub ids_for : Cache → Text → List ℕ
ids_for c model = first_of_two (ids_of model c.by_model) (ids_of (codes "*") c.by_model)

pub data SelectError : Type 0 where
  model_required : SelectError
  no_provider : Text → SelectError
  no_remaining : Text → SelectError
  no_remaining_for : Text → Text → SelectError

abbrev pub is_excluded : List ℕ → ℕ → Bool
is_excluded excluded id = any (λ e. e == id) excluded

-- One round of the loop over the ids.
abbrev pub admit : Text → Option Provider → List Provider → List Provider
admit capability none rest = rest
admit capability (some p) rest =
    if is_enabled p && supports_capability p capability then p ∷ rest else rest

unfoldable pub candidates : Cache → Text → List ℕ → List ℕ → List Provider
candidates c capability excluded [] = []
candidates c capability excluded (id ∷ ids) =
    let rest = candidates c capability excluded ids in
    if is_excluded excluded id then rest else admit capability (lookup id c.by_id) rest

unfoldable pub top_of : List Provider → List Provider
top_of [] = []
top_of (p ∷ ps) = keep (λ q. q.priority == p.priority) (p ∷ ps)

-- `&selected, nil`, unless the pick panics.
abbrev pub returned : Option Provider → Option (Result SelectError Provider)
returned none = none
returned (some chosen) = some (ok chosen)

-- `rand.Intn` is a parameter; `none` is a panic.
module _ (intn : ℕ → ℕ) where
  abbrev pub picked : Text → Text → List Provider → Option (Result SelectError Provider)
  picked model capability [] =
      if capability == []
      then some (err (no_remaining model))
      else some (err (no_remaining_for model capability))
  picked model capability (p ∷ ps) = returned (pick_weighted intn (top_of (p ∷ ps)))

  unfoldable pub select_for_capability :
      Cache → Text → Text → List ℕ → Option (Result SelectError Provider)
  select_for_capability c raw_model raw_capability excluded =
      let model = trim_space raw_model in
      let capability = normalize_endpoint_capability raw_capability in
      let ids = ids_for c model in
      if model == []
      then some (err model_required)
      else if length ids == 0
      then some (err (no_provider model))
      else picked model capability (candidates c capability excluded ids)

  unfoldable pub select : Cache → Text → List ℕ → Option (Result SelectError Provider)
  unfolding select_for_capability
  select c model excluded = select_for_capability c model [] excluded
