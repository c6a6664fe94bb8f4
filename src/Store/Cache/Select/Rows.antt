-- ===== src/Store/Cache/Select/Rows.antt =====
-- Selection from a cache that `Replace` has built, told by the rows that it was built from.
use aether_code.Base.{
  ℕ, ◌<◌, true, false, List, [], ◌∷◌, Option, some, some-injective, Text, codes, ◌≤ℤ◌, In, inl, inr,
  ◌⊎◌, ◌↔◌, ◌≡◌, ◌≢◌, refl, sym, ◌∙◌, ap, subst, lookup, Result, ok, err, two_63, All-In, nat_eq,
  text_eq,
}
use aether_code.Text.{trim_space}
use aether_code.Store.Capability.{normalize_endpoint_capability}
use aether_code.Store.Provider.{Provider, Time, apply_defaults, model_list, supports_capability}
use aether_code.Store.Cache.Pick.Shares.{sum_weights, IsDraw}
use aether_code.Store.Cache.Order.{
  Descends, sort_stable-Descends, ids_of-sort_entries, In-sort_stable,
}
use aether_code.Store.Cache.Index.{Serves, In-index_rows, HasDistinctIds, lookup-index_rows}
use aether_code.Store.Cache.Candidates.{In-candidates}
use aether_code.Store.Cache.Select.{select_for_capability_cases}
use aether_code.Store.Cache.{
  Cache, SelectError, is_excluded, is_enabled, candidates, select_for_capability, ids_for, replace,
  first_of_two, ids_of, before, index_rows,
}

In-first_of_two :
    (a : ℕ) (xs ys : List ℕ)
    → In a (first_of_two xs ys) ↔ (In a xs ⊎ (((b : ℕ) → ¬ In b xs) × In a ys))
In-first_of_two a [] ys =
    (λ h. inr ((λ b i. i), h), λ h. elim h [ inl i ↦ elim i [ ] | inr h' ↦ h'.1 ])
In-first_of_two a (x ∷ xs) ys =
    (λ h. inl h, λ h. elim h [ inl i ↦ i | inr h' ↦ absurd (h'.0 x (inl refl)) ])

module _ (rows : List Provider) (version : ℕ) (now : Time) where
  abbrev pub cache : Cache
  cache = replace rows version now

  -- The ids of a model in the rebuilt index are those of the rows that serve it.
  pub In-ids_of : (a : ℕ) (m : Text) → In a (ids_of m cache.by_model) ↔ Serves rows a m
  unfolding replace lookup
  In-ids_of a m =
      let maps = index_rows rows ([], []) in
      let (into, back) = In-sort_stable (before maps.0) a (ids_of m maps.1) in
      let (into', back') = In-index_rows rows [] [] a m in
      rw (ids_of-sort_entries maps.0 m maps.1)
        (λ h. elim (into' (into h)) [ inl e ↦ elim e [ ] | inr s ↦ s ], λ s. back (back' (inr s)))

  -- A row that serves a model, or serves every model where no row serves this one.
  abbrev pub ServesFor : ℕ → Text → Type 0
  ServesFor id model =
      Serves rows id model ⊎ (((a : ℕ) → ¬ Serves rows a model) × Serves rows id (codes "*"))

  In-ids_for : (a : ℕ) (m : Text) → In a (ids_for cache m) ↔ ServesFor a m
  unfolding ids_for
  In-ids_for a m =
      let (into, back) =
        In-first_of_two a (ids_of m cache.by_model) (ids_of (codes "*") cache.by_model) in
      (
        λ h. elim (into h) [
          | inl i ↦ inl ((In-ids_of a m).0 i)
          | inr i ↦ inr ((λ b s. i.0 b ((In-ids_of b m).1 s)), (In-ids_of a (codes "*")).0 i.1)
        ],
        λ h. elim h [
          | inl s ↦ back (inl ((In-ids_of a m).1 s))
          | inr s ↦
              back (inr ((λ b i. s.0 b ((In-ids_of b m).0 i)), (In-ids_of a (codes "*")).1 s.1))
        ],
      )

  ids_of-Descends : (m : Text) → Descends cache.by_id (ids_of m cache.by_model)
  unfolding replace
  ids_of-Descends m =
      let maps = index_rows rows ([], []) in
      rw (ids_of-sort_entries maps.0 m maps.1) (sort_stable-Descends maps.0 (ids_of m maps.1))

  first_of_two-Descends :
      (xs ys : List ℕ)
      → Descends cache.by_id xs
      → Descends cache.by_id ys
      → Descends cache.by_id (first_of_two xs ys)
  first_of_two-Descends [] ys h k = k
  first_of_two-Descends (x ∷ xs) ys h k = h

  -- The id list that a selection walks is in order of priority.
  pub ids_for-Descends : (m : Text) → Descends cache.by_id (ids_for cache m)
  unfolding ids_for
  ids_for-Descends m = first_of_two-Descends _ _ (ids_of-Descends m) (ids_of-Descends (codes "*"))

  -- The defaulted row `q` of a provider may be selected: it is enabled, not excluded, supports the
  -- capability, and lists the model, or the wildcard where no enabled row lists the model.
  abbrev pub IsEligible : Text → Text → List ℕ → Provider → Type 0
  IsEligible model capability excluded q =
      (p : Provider) × In p rows
      × (q ≡ apply_defaults p)
      × (is_excluded excluded p.id ≡ false)
      × (is_enabled q ≡ true)
      × (supports_capability q capability ≡ true)
      × (In model (model_list q)
          ⊎ (((a : ℕ) → ¬ Serves rows a model) × In (codes "*") (model_list q)))

  pub lookup-cache :
      HasDistinctIds rows
      → (p : Provider) → In p rows
      → lookup p.id cache.by_id ≡ some (apply_defaults p)
  unfolding replace
  lookup-cache distinct p at = lookup-index_rows rows [] [] p distinct at

  pub row-eq :
      (p q : Provider) (id : ℕ)
      → HasDistinctIds rows
      → In p rows
      → p.id ≡ id
      → lookup id cache.by_id ≡ some q
      → q ≡ apply_defaults p
  row-eq p q id distinct at same row =
      some-injective
        (sym row ∙ sym (ap (λ (i : ℕ). lookup i cache.by_id) same) ∙ lookup-cache distinct p at)

  module _ (distinct : HasDistinctIds rows) (model capability : Text) (excluded : List ℕ) where
    abbrev left : List Provider
    left = candidates cache capability excluded (ids_for cache model)

    serving-IsEligible :
        (m : Text) (id : ℕ) (q : Provider)
        → Serves rows id m
        → is_excluded excluded id ≡ false
        → lookup id cache.by_id ≡ some q
        → is_enabled q ≡ true
        → supports_capability q capability ≡ true
        → (In m (model_list q)
            → In model (model_list q)
              ⊎ (((a : ℕ) → ¬ Serves rows a model) × In (codes "*") (model_list q)))
        → IsEligible model capability excluded q
    serving-IsEligible m id q (p, at, same, _, lists) fresh row on sup key =
        let e = row-eq p q id distinct at same row in
        (
          p,
          at,
          e,
          subst (λ (i : ℕ). is_excluded excluded i ≡ false) (sym same) fresh,
          on,
          sup,
          key (subst (λ (r : Provider). In m (model_list r)) (sym e) lists),
        )

    candidate-IsEligible : (q : Provider) → In q left → IsEligible model capability excluded q
    candidate-IsEligible q h =
        let (id, at, fresh, row, on, sup) =
          (In-candidates cache capability excluded (ids_for cache model) q).0 h in
        elim ((In-ids_for id model).0 at) [
          | inl s ↦ serving-IsEligible model id q s fresh row on sup (λ l. inl l)
          | inr s ↦ serving-IsEligible (codes "*") id q s.1 fresh row on sup (λ l. inr (s.0, l))
        ]

    candidate_of_eligible : (q : Provider) → IsEligible model capability excluded q → In q left
    candidate_of_eligible q (p, at, e, fresh, on, sup, key) =
        (In-candidates cache capability excluded (ids_for cache model) q).1 (
          p.id,
          (In-ids_for p.id model).1 serving,
          fresh,
          lookup-cache distinct p at ∙ ap some (sym e),
          on,
          sup,
        )
      where
        serves : (m : Text) → In m (model_list q) → Serves rows p.id m
        serves m l = (
          p,
          at,
          refl,
          subst (λ (r : Provider). is_enabled r ≡ true) e on,
          subst (λ (r : Provider). In m (model_list r)) e l,
        )

        serving : ServesFor p.id model
        serving = elim key [
          | inl l ↦ inl (serves model l)
          | inr l ↦ inr (l.0, serves (codes "*") l.1)
        ]

-- The eligible row of the highest priority, or an error where no row is eligible.
abbrev pub Best :
    List Provider → ℕ → Time → Text → Text → List ℕ → Option (Result SelectError Provider) → Type 0
Best rows version now model capability excluded outcome =
    ((q : Provider) × (outcome ≡ some (ok q))
      × IsEligible rows version now model capability excluded q
      × ((r : Provider)
          → IsEligible rows version now model capability excluded r
          → r.priority ≤ℤ q.priority))
    ⊎ (((r : Provider) → ¬ IsEligible rows version now model capability excluded r)
        × ((e : SelectError) × (outcome ≡ some (err e))))

-- A selection from a rebuilt cache returns an eligible row of the highest priority among the eligible
-- ones whenever there is one, and an error otherwise: the ids of the rows are distinct, the model is
-- not blank, the weights of the rows that are left fit an `int`, and a draw below `n` is below `n`.
pub select-replace :
    (intn : ℕ → ℕ) (rows : List Provider) (version : ℕ) (now : Time) (model capability : Text)
    (excluded : List ℕ)
    → IsDraw intn
    → HasDistinctIds rows
    → trim_space model ≢ []
    → sum_weights (
        candidates
          (replace rows version now)
          (normalize_endpoint_capability capability)
          excluded
          (ids_for (replace rows version now) (trim_space model)))
      < two_63
    → Best rows version now
        (trim_space model)
        (normalize_endpoint_capability capability)
        excluded
        (select_for_capability intn (replace rows version now) model capability excluded)
select-replace intn rows version now model capability excluded draw distinct named fits =
    let m = trim_space model in
    let k = normalize_endpoint_capability capability in
    let into = candidate_of_eligible rows version now distinct m k excluded in
    elim (select_for_capability_cases intn draw (replace rows version now) model capability excluded
      (ids_for-Descends rows version now m) fits) [
        | inl blank ↦ absurd (named blank.0)
        | inr (inl missing) ↦ inr ((λ r e. no_id r missing.1 (into r e)), (_, missing.2))
        | inr (inr (inl nothing)) ↦ inr ((λ r e. subst (In r) nothing.1 (into r e)), (_, nothing.2))
        | inr (inr (inr (_, chosen))) ↦ inl (
          chosen.0,
          chosen.1,
          candidate-IsEligible rows version now distinct m k excluded chosen.0 chosen.2,
          λ r e. All-In _ r _ chosen.3 (into r e),
        )
      ]
  where
    no_id :
        (r : Provider)
        → ids_for (replace rows version now) (trim_space model) ≡ []
        → In r (
            candidates
              (replace rows version now)
              (normalize_endpoint_capability capability)
              excluded
              (ids_for (replace rows version now) (trim_space model)))
        → ⊥
    no_id r e h =
        let s =
          (In-candidates (replace rows version now) (normalize_endpoint_capability capability)
              excluded (ids_for (replace rows version now) (trim_space model)) r).0
            h in
        subst (In s.0) e s.1
