-- ===== src/Store/Tests.antt =====
-- The theorems about the rows and the routing cache at concrete inputs, and runs of the code.
mod Writes
mod Rows
mod Models
mod Columns
mod Reload
use aether_code.Base.{
  ℕ, ◌<◌, if◌then◌else◌, List, [], ◌∷◌, Option, none, some, Text, codes, text_beq, ◌==◌, text_eq,
  nat_eq, int_eq, ℤ, pos, ◌≡◌, refl, arith, In, Result, ok, err, lookup, insert, keep,
}
use aether_code.Text.{trim_space, trim, drop_left, drop_right, split_by, to_lower}
use aether_code.Store.Capability.{
  normalize_endpoint_capability, normalize_endpoint_capabilities, normalize_unseen, split_csv,
  compact_strings, default_endpoint_capabilities,
}
use aether_code.Store.Provider.{
  Provider, apply_defaults, model_list, supports_capability, normalized_endpoint_capabilities,
}
use aether_code.Store.Cache.{
  SelectError, replace, candidates, zero_provider, select_for_capability, index_rows, add_models,
  sort_entries, before, sort_stable, ids_for, top_of,
}
use aether_code.Store.Cache.Pick.{pick_weighted, add_weights, walk, provider_at}
use aether_code.Store.Cache.Pick.Shares.{
  sum_weights, shares, pick_weighted-drawn, pick_weighted-In, IsDraw,
}
use aether_code.Store.Cache.Select.Rows.{Best, select-replace}

-- What evaluating the cache unfolds.
cache_runs : Unit {0}
unfolding replace candidates select_for_capability index_rows add_models sort_entries before
    sort_stable ids_for top_of pick_weighted add_weights walk lookup insert keep text_beq trim_space
    trim drop_left drop_right split_by to_lower normalize_endpoint_capability
    normalize_endpoint_capabilities normalize_unseen split_csv compact_strings
    default_endpoint_capabilities apply_defaults model_list supports_capability
    normalized_endpoint_capabilities sum_weights shares
cache_runs = tt

abbrev row : ℕ → Text → ℤ → ℤ → ℕ → Provider
row id models status priority weight = record zero_provider {
  id = id;
  provider = codes "openai";
  models = models;
  status = status;
  priority = priority;
  weight = weight;
}

abbrev rows : List Provider
rows =
    row 1 (codes "gpt-4o") (pos 2) (pos 100) 1000
    ∷ row 2 (codes "gpt-4o, mini") (pos 1) (pos 10) 0
    ∷ row 3 (codes "gpt-4o") (pos 1) (pos 10) 100
    ∷ row 4 (codes "gpt-4o") (pos 1) (pos 1) 1000
    ∷ row 9 (codes "*") (pos 1) (pos 5) 1
    ∷ []

-- The least draw.
abbrev least : ℕ → ℕ
least n = 0

least-IsDraw : IsDraw least
least-IsDraw n h = h

abbrev id_of : Option (Result SelectError Provider) → ℕ
id_of (some (ok p)) = p.id
id_of (some (err e)) = 0
id_of none = 0

abbrev select_id : Text → List ℕ → ℕ
select_id model excluded = id_of (
    select_for_capability least (replace rows 3 0) model (codes "openai.chat_completions") excluded)

selects :
    (select_id (codes "gpt-4o") [] ≡ 3)
    × (select_id (codes "gpt-4o") (3 ∷ []) ≡ 2)
    × (select_id (codes "gpt-4o") (2 ∷ 3 ∷ []) ≡ 4)
    × (select_id (codes "gpt-4o") (2 ∷ 3 ∷ 4 ∷ []) ≡ 0)
    × (select_id (codes "unlisted") [] ≡ 9)
unfolding cache_runs
selects = (refl, refl, refl, refl, refl)

select-replace_example :
    Best rows 3 0
      (trim_space (codes "gpt-4o"))
      (normalize_endpoint_capability [])
      (3 ∷ [])
      (select_for_capability least (replace rows 3 0) (codes "gpt-4o") [] (3 ∷ []))
unfolding cache_runs
select-replace_example =
    select-replace least rows 3 0 (codes "gpt-4o") [] (3 ∷ []) least-IsDraw (omega arith) (cc)
      (omega arith)

abbrev pair : List Provider
pair = row 2 [] (pos 1) (pos 10) 3 ∷ row 3 [] (pos 1) (pos 10) 4 ∷ []

pick_weighted-In_example :
    (q : Provider) × (pick_weighted least pair ≡ some q)
    × In q pair
    × (0 < sum_weights pair → 0 < q.weight)
unfolding cache_runs
pick_weighted-In_example =
    pick_weighted-In least (row 2 [] (pos 1) (pos 10) 3) (row 3 [] (pos 1) (pos 10) 4 ∷ [])
      (omega arith) least-IsDraw

pick_weighted-drawn_example : pick_weighted least pair ≡ (
    if sum_weights pair == 0
    then provider_at pair (least 2)
    else provider_at (shares pair) (least (sum_weights pair)))
unfolding cache_runs
pick_weighted-drawn_example =
    pick_weighted-drawn least (row 2 [] (pos 1) (pos 10) 3) (row 3 [] (pos 1) (pos 10) 4 ∷ [])
      (omega arith) least-IsDraw
