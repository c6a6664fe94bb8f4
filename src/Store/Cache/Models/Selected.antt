-- ===== src/Store/Cache/Models/Selected.antt =====
-- A selection for a model and a capability that the cache lists.
use aether_code.Base.{
  ℕ, ◌<◌, Bool, true, false, List, [], ◌∷◌, none, some, some-injective, Text, codes, ◌==◌, text_eq,
  ◌||◌, In, All-In, Bool-cases, inl, inr, ◌≡◌, ◌≢◌, refl, sym, subst, text_beq_iff, ok, two_63,
  arith,
}
use aether_code.Text.{trim_space}
use aether_code.Store.Capability.{normalize_endpoint_capability}
use aether_code.Store.Capability.Laws.{IsNormal}
use aether_code.Store.Provider.{
  Provider, Time, apply_defaults, model_list, normalized_endpoint_capabilities,
}
use aether_code.Store.Provider.Laws.{
  supports_capability_iff, normalized_endpoint_capabilities-IsNormal,
}
use aether_code.Store.Cache.Pick.Shares.{sum_weights, IsDraw}
use aether_code.Store.Cache.Index.{HasDistinctIds}
use aether_code.Store.Cache.Select.Rows.{IsEligible, Best, select-replace}
use aether_code.Store.Cache.{candidates, ids_for, replace, select_for_capability}
use aether_code.Store.Cache.Models.{ModelMetadata, find_model, models, model}
use aether_code.Store.Cache.Models.Served.{models-replace, Offered}

find_model-some :
    (m : Text) (ms : List ModelMetadata) {n : ModelMetadata}
    → find_model m ms ≡ some n
    → In n ms × (n.id ≡ m)
unfolding find_model
find_model-some m [] h = absurd (cc)
find_model-some m (o ∷ ms) {n} h = elim (Bool-cases (o.id == m)) [
  | inl t ↦
      let e : o ≡ n = some-injective (rw t at h) in
      (inl (sym e), subst (λ (x : ModelMetadata). x.id ≡ m) e ((text_beq_iff o.id m).0 t))
  | inr f ↦ let r : In n ms × (n.id ≡ m) = find_model-some m ms (rw f at h) in (inr r.0, r.1)
]

-- A lookup that finds a model was for its id, which is not blank.
model-some :
    (c : _) (raw : Text) {n : ModelMetadata}
    → model c raw ≡ some n
    → (trim_space raw ≢ []) × In n (models c) × (n.id ≡ trim_space raw)
unfolding model
model-some c raw {n} h = elim (Bool-cases (trim_space raw == [] || trim_space raw == codes "*")) [
  | inl t ↦ absurd (gone (rw t at h))
  | inr f ↦
      let (i, e) = find_model-some (trim_space raw) (models c) (rw f at h) in
      (λ blank. filled _ _ f ((text_beq_iff (trim_space raw) []).1 blank), i, e)
]
  where
    gone : none ≡ some n → ⊥
    gone e = cc

    filled : (a b : Bool) → (a || b) ≡ false → a ≡ true → ⊥
    filled a b f t = ground arith

module _ (intn : ℕ → ℕ) (rows : List Provider) (version : ℕ) (now : Time) where
  Offered-IsEligible :
      (m k : Text)
      → Offered rows version now m k
      → (p : Provider) × IsEligible rows version now m k [] p
        × (normalize_endpoint_capability k ≡ k)
  Offered-IsEligible m k (p, i, on, lists, has) =
      let q = apply_defaults p in
      let normal = All-In IsNormal k _ (normalized_endpoint_capabilities-IsNormal q) has in
      (
        q,
        (
          p,
          i,
          refl,
          refl,
          on,
          (supports_capability_iff q k).1 (
              inr (
                subst (λ (x : Text). In x (normalized_endpoint_capabilities q)) (sym normal.1)
                  has)),
          inl lists,
        ),
        normal.1,
      )

  -- A model that the listing names with a capability is served: a selection for it with that capability
  -- returns a row that is enabled, has the capability and lists the model. The cache is a rebuilt one, the
  -- ids of its rows are distinct, the weights of the rows that are left fit an `int`, and a draw below `n`
  -- is below `n`.
  pub model-IsServed :
      (raw k : Text) (n : ModelMetadata)
      → IsDraw intn
      → HasDistinctIds rows
      → model (replace rows version now) raw ≡ some n
      → In k n.capabilities
      → sum_weights (
          candidates
            (replace rows version now)
            (normalize_endpoint_capability k)
            []
            (ids_for (replace rows version now) (trim_space raw)))
        < two_63
      → (q : Provider) × (select_for_capability intn (replace rows version now) raw k []
          ≡ some (ok q))
        × IsEligible rows version now (trim_space raw) k [] q
        × In (trim_space raw) (model_list q)
  model-IsServed raw k n draw distinct found has fits =
      let (named, i, same) = model-some (replace rows version now) raw found in
      let m = trim_space raw in
      let (not_star, offered) =
        (models-replace rows version now distinct m k).0 (n, i, same, has) in
      let (p, eligible, normal) = Offered-IsEligible m k offered in
      let best = select-replace intn rows version now raw k [] draw distinct named fits in
      elim (subst
        (λ (x : Text).
          Best rows version now m x []
            (select_for_capability intn (replace rows version now) raw k []))
        normal best) [
          | inl (q, e, right, _) ↦ (
            q,
            e,
            right,
            elim (right.6) [
              | inl l ↦ l
              | inr s ↦ absurd (s.0 offered.0.id (offered.0, offered.1, refl, offered.2, offered.3))
            ],
          )
          | inr (nobody, _) ↦ absurd (nobody p eligible)
        ]
