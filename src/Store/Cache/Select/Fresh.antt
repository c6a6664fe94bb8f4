-- ===== src/Store/Cache/Select/Fresh.antt =====
-- What a selection guarantees to a caller that excludes the providers it has tried.
use aether_code.Base.{
  ℕ, ◌+◌, ◌<◌, ◌≤◌, true, false, List, [], ◌∷◌, map, Option, none, some, Text, ◌==◌, nat_eq,
  text_eq, In, inl, inr, ◌⊎◌, ◌≡◌, sym, ap, ◌∙◌, subst, arith, lookup, insert, lookup-insert,
  some-injective, two_63, Bool-cases, ok, err,
}
use aether_code.Text.{trim_space, or_else}
use aether_code.Store.Capability.{normalize_endpoint_capability}
use aether_code.Store.Provider.{Provider, supports_capability, apply_defaults, Time}
use aether_code.Store.Cache.Pick.Shares.{sum_weights, IsDraw}
use aether_code.Store.Cache.Order.{Descends}
use aether_code.Store.Cache.Candidates.{In-candidates}
use aether_code.Store.Cache.Select.{select_for_capability_cases}
use aether_code.Store.Cache.Select.Rows.{ids_for-Descends}
use aether_code.Store.Cache.{
  Cache, SelectError, is_excluded, is_enabled, admit, candidates, select_for_capability, ids_for,
  row_of, zero_provider, replace, index_rows,
}

-- Every row stands under its own id.
abbrev pub IsKeyed : List (ℕ × Provider) → Type 0
IsKeyed by_id = (id : ℕ) (p : Provider) → lookup id by_id ≡ some p → p.id ≡ id

-- A cache that can serve a model: keyed by id, with the model's ids in order and the sum of their
-- weights in range.
abbrev pub IsServing : Cache → Text → Type 0
IsServing c model =
    IsKeyed c.by_id
    × Descends c.by_id (ids_for c model)
    × (sum_weights (map (row_of c.by_id) (ids_for c model)) < two_63)

module _ (c : Cache) (capability : Text) (excluded : List ℕ) where
  admit-weight :
      (o : Option Provider) (rest : List Provider)
      → sum_weights (admit capability o rest) ≤ (or_else o zero_provider).weight + sum_weights rest
  unfolding sum_weights
  admit-weight none rest = omega arith
  admit-weight (some p) rest = ground arith

  candidates-weight :
      (ids : List ℕ)
      → sum_weights (candidates c capability excluded ids) ≤ sum_weights (map (row_of c.by_id) ids)
  unfolding candidates sum_weights
  candidates-weight [] = omega arith
  candidates-weight (id ∷ ids) = elim (Bool-cases (is_excluded excluded id)) [
    | inl t ↦ rw t (omega (arith, candidates-weight ids))
    | inr f ↦ rw f (
        omega (
          arith,
          candidates-weight ids,
          admit-weight (lookup id c.by_id) (candidates c capability excluded ids),
        ))
  ]

-- The provider is enabled, supports the capability, serves the model and is not excluded.
abbrev pub IsFresh : Cache → Text → Text → List ℕ → Provider → Type 0
IsFresh c model capability excluded p =
    (is_excluded excluded p.id ≡ false)
    × (is_enabled p ≡ true)
    × (supports_capability p capability ≡ true)
    × In p.id (ids_for c model)

-- A selection from a cache that serves the model returns an error, or a provider that is enabled, supports
-- the capability, serves the model and is not excluded; it does not panic.
pub select-IsFresh :
    (intn : ℕ → ℕ) (c : Cache) (model capability : Text) (excluded : List ℕ)
    → IsDraw intn
    → IsServing c (trim_space model)
    → ((e : SelectError) × (select_for_capability intn c model capability excluded ≡ some (err e)))
      ⊎ ((p : Provider) × (select_for_capability intn c model capability excluded ≡ some (ok p))
          × IsFresh c (trim_space model) (normalize_endpoint_capability capability) excluded p)
select-IsFresh intn c model capability excluded draw (keyed, order, light) =
    let m = trim_space model in
    let k = normalize_endpoint_capability capability in
    elim (select_for_capability_cases intn draw c model capability excluded order
      (omega (arith, light, candidates-weight c k excluded (ids_for c m)))) [
        | inl h ↦ inl (_, h.1)
        | inr (inl h) ↦ inl (_, h.2)
        | inr (inr (inl h)) ↦ inl (_, h.2)
        | inr (inr (inr (_, (q, chosen, at, _, _)))) ↦
            let (id, member, free, row, on, able) =
              (In-candidates c k excluded (ids_for c m) q).0 at in
            let same = sym (keyed id q row) in
            inr (
              q,
              chosen,
              (
                subst (λ (x : ℕ). is_excluded excluded x ≡ false) same free,
                on,
                able,
                subst (λ (x : ℕ). In x (ids_for c m)) same member,
              ),
            )
      ]

index_rows-IsKeyed :
    (rows : List Provider) (by_id : List (ℕ × Provider)) (by_model : List (Text × List ℕ))
    → IsKeyed by_id
    → IsKeyed (index_rows rows (by_id, by_model)).0
unfolding index_rows
index_rows-IsKeyed [] by_id by_model h = h
index_rows-IsKeyed (raw ∷ rows) by_id by_model h =
    index_rows-IsKeyed rows _ _ (λ id p e. keyed id p e)
  where
    row : Provider
    row = apply_defaults raw

    keyed : (id : ℕ) (p : Provider) → lookup id (insert row.id row by_id) ≡ some p → p.id ≡ id
    keyed id p e = elim (Bool-cases (row.id == id)) [
      | inl t ↦
          let found : some row ≡ some p = rw (lookup-insert row.id id row by_id, t) at e in
          sym (ap (λ (q : Provider). q.id) (some-injective found)) ∙ ground (arith, t)
      | inr f ↦ h id p (rw (lookup-insert row.id id row by_id, f) at e)
    ]

-- A rebuilt cache serves each model whose weights are in range.
pub replace-IsServing :
    (rows : List Provider) (version : ℕ) (now : Time) (model : Text)
    → let c = replace rows version now in
      sum_weights (map (row_of c.by_id) (ids_for c model)) < two_63 → IsServing c model
replace-IsServing rows version now model light = (
  unfold replace in index_rows-IsKeyed rows [] [] (unfold lookup in λ id p e. cc),
  ids_for-Descends rows version now model,
  light,
)
