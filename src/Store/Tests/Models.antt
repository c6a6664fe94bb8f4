-- ===== src/Store/Tests/Models.antt =====
-- The theorems about the listing of the models at a concrete cache.
use aether_code.Base.{
  ℕ, ◌<◌, List, [], ◌∷◌, some, Text, codes, text_eq, nat_eq, int_eq, pos, text_beq, keep, lookup,
  insert, ok, In, inl, ◌↔◌, ◌≡◌, ◌≢◌, refl, arith, two_63,
}
use aether_code.Text.{
  trim_space, trim, drop_left, drop_right, split_by, to_lower, text_ltb, put_sorted, sort_texts,
}
use aether_code.Store.Capability.{
  normalize_endpoint_capability, normalize_endpoint_capabilities, normalize_unseen, split_csv,
  compact_strings, default_endpoint_capabilities,
}
use aether_code.Store.Provider.{
  Provider, apply_defaults, model_list, supports_capability, normalized_endpoint_capabilities,
}
use aether_code.Store.Cache.{
  replace, candidates, zero_provider, select_for_capability, index_rows, add_models, sort_entries,
  before, sort_stable, ids_for, top_of,
}
use aether_code.Store.Cache.Pick.{pick_weighted, add_weights, walk}
use aether_code.Store.Cache.Pick.Shares.{sum_weights, IsDraw}
use aether_code.Store.Cache.Index.{HasDistinctIds}
use aether_code.Store.Cache.Select.Rows.{IsEligible}
use aether_code.Store.Cache.Models.{
  ModelMetadata, model, models, find_model, sort_models, put_model, collect_models, capability_set,
  add_capabilities,
}
use aether_code.Store.Cache.Models.Laws.{Lists}
use aether_code.Store.Cache.Models.Served.{Offered, models-replace}
use aether_code.Store.Cache.Models.Selected.{model-IsServed}

-- What evaluating the listing unfolds.
model_runs : Unit {0}
unfolding replace candidates select_for_capability index_rows add_models sort_entries before
    sort_stable ids_for top_of pick_weighted add_weights walk lookup insert keep text_beq trim_space
    trim drop_left drop_right split_by to_lower normalize_endpoint_capability
    normalize_endpoint_capabilities normalize_unseen split_csv compact_strings
    default_endpoint_capabilities apply_defaults model_list supports_capability
    normalized_endpoint_capabilities sum_weights model models find_model sort_models put_model
    collect_models capability_set add_capabilities text_ltb put_sorted sort_texts
model_runs = tt

abbrev row : ℕ → Text → Text → Provider
row id models capability = record zero_provider {
  id = id;
  provider = codes "openai";
  models = models;
  endpoint_capabilities = capability ∷ [];
  status = pos 1;
  weight = 2;
}

abbrev rows : List Provider
rows = row 1 (codes "a, *") (codes "X") ∷ row 2 (codes "b,a") (codes "y") ∷ []

abbrev least : ℕ → ℕ
least n = 0

least-IsDraw : IsDraw least
least-IsDraw n h = h

distinct : HasDistinctIds rows
distinct = (((λ e. ground arith), tt), (tt, tt))

abbrev listed : ModelMetadata
listed = record { id = codes "a"; capabilities = codes "x" ∷ codes "y" ∷ [] }

finds : model (replace rows 3 0) (codes " a") ≡ some listed
unfolding model_runs
finds = refl

models-replace_example :
    Lists (codes "a") (codes "y") (models (replace rows 3 0))
    ↔ ((codes "a" ≢ codes "*") × Offered rows 3 0 (codes "a") (codes "y"))
models-replace_example = models-replace rows 3 0 distinct (codes "a") (codes "y")

light :
    sum_weights (
      candidates
        (replace rows 3 0)
        (normalize_endpoint_capability (codes "x"))
        []
        (ids_for (replace rows 3 0) (trim_space (codes " a"))))
    < two_63
unfolding model_runs
light = omega arith

model-IsServed_example :
    (q : Provider) × (select_for_capability least (replace rows 3 0) (codes " a") (codes "x") []
      ≡ some (ok q))
    × IsEligible rows 3 0 (trim_space (codes " a")) (codes "x") [] q
    × In (trim_space (codes " a")) (model_list q)
model-IsServed_example =
    model-IsServed least rows 3 0 (codes " a") (codes "x") listed least-IsDraw distinct finds
      (inl refl) light
