-- ===== src/Store/Cache/Models/Served.antt =====
-- The listing of a rebuilt cache, told by the rows that it was built from, and what a selection for a listed
-- model returns.
use aether_code.Base.{
  ℕ, true, List, [], ◌∷◌, Option, none, Text, codes, text_eq, nat_eq, if◌then◌else◌, In, Bool-cases,
  Option-cases, inl, inr, ◌↔◌, ◌≡◌, ◌≢◌, refl, sym, subst, lookup, insert, HasDistinctKeys,
  insert-HasDistinctKeys, lookup_of_In, In-of_lookup, arith,
}
use aether_code.Text.{or_else}
use aether_code.Store.Provider.{
  Provider, Time, apply_defaults, model_list, normalized_endpoint_capabilities,
}
use aether_code.Store.Cache.Index.{HasDistinctIds}
use aether_code.Store.Cache.Select.Rows.{cache, In-ids_of, row-eq, lookup-cache}
use aether_code.Store.Cache.{is_enabled, replace, add_models, index_rows, ids_of, sort_entries}
use aether_code.Store.Cache.Models.{models}
use aether_code.Store.Cache.Models.Laws.{Lists, ListedBy, Lists-collect_models, In-sort_models}

add_models-HasDistinctKeys :
    (id : ℕ) (ms : List Text) (by_model : List (Text × List ℕ))
    → HasDistinctKeys by_model
    → HasDistinctKeys (add_models id ms by_model)
unfolding add_models
add_models-HasDistinctKeys id [] by_model d = d
add_models-HasDistinctKeys id (m ∷ ms) by_model d =
    add_models-HasDistinctKeys id ms _ (insert-HasDistinctKeys m _ by_model d)

index_rows-HasDistinctKeys :
    (rows : List Provider) (by_id : List (ℕ × Provider)) (by_model : List (Text × List ℕ))
    → HasDistinctKeys by_model
    → HasDistinctKeys (index_rows rows (by_id, by_model)).1
unfolding index_rows
index_rows-HasDistinctKeys [] by_id by_model d = d
index_rows-HasDistinctKeys (raw ∷ rows) by_id by_model d =
    let p = apply_defaults raw in index_rows-HasDistinctKeys rows (insert p.id p by_id) _ (added p)
  where
    added :
        (p : Provider)
        → HasDistinctKeys
            (if is_enabled p then add_models p.id (model_list p) by_model else by_model)
    added p = elim (Bool-cases (is_enabled p)) [
      | inl t ↦ rw t (add_models-HasDistinctKeys p.id (model_list p) by_model d)
      | inr f ↦ rw f d
    ]

sort_entries-absent :
    (by_id : List (ℕ × Provider)) (m : Text) (by_model : List (Text × List ℕ))
    → lookup m by_model ≡ none
    → lookup m (sort_entries by_id by_model) ≡ none
unfolding sort_entries lookup
sort_entries-absent by_id m [] h = refl
sort_entries-absent by_id m ((n, ids) ∷ by_model) h =
    ground (arith, sort_entries-absent by_id m by_model)

sort_entries-HasDistinctKeys :
    (by_id : List (ℕ × Provider)) (by_model : List (Text × List ℕ))
    → HasDistinctKeys by_model
    → HasDistinctKeys (sort_entries by_id by_model)
unfolding sort_entries
sort_entries-HasDistinctKeys by_id [] d = tt
sort_entries-HasDistinctKeys by_id ((m, ids) ∷ by_model) d =
    (sort_entries-absent by_id m by_model d.0, sort_entries-HasDistinctKeys by_id by_model d.1)

module _ (rows : List Provider) (version : ℕ) (now : Time) where
  by_model-HasDistinctKeys : HasDistinctKeys (replace rows version now).by_model
  unfolding replace
  by_model-HasDistinctKeys =
      let maps = index_rows rows ([], []) in
      sort_entries-HasDistinctKeys maps.0 maps.1 (index_rows-HasDistinctKeys rows [] [] tt)

  entry_of :
      (id : ℕ) (m : Text)
      → In id (ids_of m (cache rows version now).by_model)
      → (ids : List ℕ) × In (m, ids) (cache rows version now).by_model × In id ids
  entry_of id m i = elim (Option-cases (lookup m (cache rows version now).by_model)) [
    | inl e ↦ elim (subst (λ (o : Option (List ℕ)). In id (or_else o [])) e i) [ ]
    | inr (ids, e) ↦
        (ids, In-of_lookup m ids _ e, subst (λ (o : Option (List ℕ)). In id (or_else o [])) e i)
  ]

  -- An enabled row lists the model and has the capability, after its defaults are applied.
  abbrev pub Offered : Text → Text → Type 0
  Offered m k =
      (p : Provider) × In p rows
      × (is_enabled (apply_defaults p) ≡ true)
      × In m (model_list (apply_defaults p))
      × In k (normalized_endpoint_capabilities (apply_defaults p))

  module _ (distinct : HasDistinctIds rows) where
    Offered-ListedBy :
        (m k : Text)
        → ListedBy (cache rows version now).by_id (cache rows version now).by_model m k
        → Offered m k
    Offered-ListedBy m k (_, (ids, entry, (id, at, (q, row, (on, has))))) =
        let found = lookup_of_In m ids _ by_model-HasDistinctKeys entry in
        let (p, i, same, enabled, lists) =
          (In-ids_of rows version now id m).0
            (subst (λ (o : Option (List ℕ)). In id (or_else o [])) (sym found) at) in
        let e = row-eq rows version now p q id distinct i same row in
        (
          p,
          i,
          enabled,
          lists,
          subst (λ (r : Provider). In k (normalized_endpoint_capabilities r)) e has,
        )

    ListedBy-Offered :
        (m k : Text)
        → m ≢ codes "*"
        → Offered m k
        → ListedBy (cache rows version now).by_id (cache rows version now).by_model m k
    ListedBy-Offered m k named (p, i, on, lists, has) =
        let (ids, entry, at) =
          entry_of p.id m ((In-ids_of rows version now p.id m).1 (p, i, refl, on, lists)) in
        (
          named,
          (
            ids,
            entry,
            (p.id, at, (apply_defaults p, lookup-cache rows version now distinct p i, (on, has))),
          ),
        )

    -- A rebuilt cache lists a model with a capability exactly if the model is not the wildcard and an
    -- enabled row lists the model and has the capability: the ids of the rows are distinct.
    pub models-replace :
        (m k : Text)
        → Lists m k (models (replace rows version now)) ↔ ((m ≢ codes "*") × Offered m k)
    unfolding models
    models-replace m k =
        let (into, back) =
          Lists-collect_models (cache rows version now).by_id (cache rows version now).by_model m
            k in
        (
          λ h.
              let listed = into (h.0, (In-sort_models h.0 _).0 h.1, h.2, h.3) in
              (listed.0, Offered-ListedBy m k listed),
          λ h.
              let (n, i, named, has) = back (ListedBy-Offered m k h.0 h.1) in
              (n, (In-sort_models n _).1 i, named, has),
        )
