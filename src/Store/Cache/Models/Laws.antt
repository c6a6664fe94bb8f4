-- ===== src/Store/Cache/Models/Laws.antt =====
-- Which models the loop over the index lists, and with which capabilities.
use aether_code.Base.{
  ℕ, false, List, [], ◌∷◌, Text, codes, ◌==◌, text_eq, nat_eq, In, Bool-cases, inl, inr, ◌⊎◌, ◌↔◌,
  ◌≡◌, ◌≢◌, refl, sym, ap, subst, ◌∙◌, text_beq_iff,
}
use aether_code.Text.{text_ltb, sort_texts, In-sort_texts}
use aether_code.Store.Provider.{Provider}
use aether_code.Store.Cache.Models.{
  ModelMetadata, capability_set, list_model, collect_models, put_model, sort_models,
}
use aether_code.Store.Cache.Models.Sets.{HasBehind, In-capability_set}

In-put_model :
    (m n : ModelMetadata) (ns : List ModelMetadata) → In m (put_model n ns) ↔ ((m ≡ n) ⊎ In m ns)
unfolding put_model
In-put_model m n [] = (λ h. h, λ h. h)
In-put_model m n (o ∷ ns) = elim (Bool-cases (text_ltb o.id n.id)) [
  | inl t ↦
      let (into, back) = In-put_model m n ns in
      rw t (
        λ h. elim h [
          | inl e ↦ inr (inl e)
          | inr i ↦ elim (into i) [ inl e ↦ inl e | inr j ↦ inr (inr j) ]
        ],
        λ h. elim h [
          | inl e ↦ inr (back (inl e))
          | inr (inl e) ↦ inl e
          | inr (inr i) ↦ inr (back (inr i))
        ],
      )
  | inr f ↦ rw f (λ h. h, λ h. h)
]

pub In-sort_models : (m : ModelMetadata) (ms : List ModelMetadata) → In m (sort_models ms) ↔ In m ms
unfolding sort_models
In-sort_models m [] = (λ h. h, λ h. h)
In-sort_models m (n ∷ ms) =
    let (into, back) = In-put_model m n (sort_models ms) in
    let (into', back') = In-sort_models m ms in
    (
      λ h. elim (into h) [ inl e ↦ inl e | inr i ↦ inr (into' i) ],
      λ h. elim h [ inl e ↦ back (inl e) | inr i ↦ back (inr (back' i)) ],
    )

-- The list has the model with the capability.
abbrev pub Lists : Text → Text → List ModelMetadata → Type 0
Lists m k ms = (n : ModelMetadata) × In n ms × (n.id ≡ m) × In k n.capabilities

Lists-list_model :
    (m k name : Text) (set : List Text) (rest : List ModelMetadata)
    → Lists m k (list_model name set rest) ↔ (((name ≡ m) × In k set) ⊎ Lists m k rest)
Lists-list_model m k name [] rest = (λ h. inr h, λ h. elim h [ inl x ↦ elim (x.1) [ ] | inr y ↦ y ])
Lists-list_model m k name (a ∷ set) rest =
    let sorted = In-sort_texts k (a ∷ set) in
    (
      λ h. elim (h.1) [
        | inl e ↦ inl (
          sym (ap (λ (n : ModelMetadata). n.id) e) ∙ h.2,
          sorted.0 (subst (λ (n : ModelMetadata). In k n.capabilities) e h.3),
        )
        | inr i ↦ inr (h.0, i, h.2, h.3)
      ],
      λ h. elim h [
        | inl x ↦
            (record { id = name; capabilities = sort_texts (a ∷ set) }, inl refl, x.0, sorted.1 x.1)
        | inr y ↦ (y.0, inr y.1, y.2, y.3)
      ],
    )

-- An entry of the index that is not the wildcard, with a row behind it that has the capability.
abbrev pub ListedBy : List (ℕ × Provider) → List (Text × List ℕ) → Text → Text → Type 0
ListedBy by_id by_model m k =
    (m ≢ codes "*") × ((ids : List ℕ) × In (m, ids) by_model × HasBehind by_id ids k)

pub Lists-collect_models :
    (by_id : List (ℕ × Provider)) (by_model : List (Text × List ℕ)) (m k : Text)
    → Lists m k (collect_models by_id by_model) ↔ ListedBy by_id by_model m k
unfolding collect_models
Lists-collect_models by_id [] m k = (λ h. elim (h.1) [ ], λ h. elim (h.1.1) [ ])
Lists-collect_models by_id ((name, ids) ∷ entries) m k =
    let (into, back) = Lists-collect_models by_id entries m k in
    elim (Bool-cases (name == codes "*")) [
      | inl t ↦ rw t (
        λ h. let (ne, (js, i, x)) = into h in (ne, (js, inr i, x)),
        λ h. elim (h.1.1) [
          | inl e ↦
              absurd (h.0 (ap (λ (z : Text × List ℕ). z.0) e ∙ (text_beq_iff name (codes "*")).0 t))
          | inr i ↦ back (h.0, (h.1.0, i, h.1.2))
        ],
      )
      | inr f ↦
          let (into', back') =
            Lists-list_model m k name (capability_set by_id ids [])
              (collect_models by_id entries) in
          let set = In-capability_set by_id k ids [] in
          rw f (
            λ h. elim (into' h) [
              | inl (e, i) ↦ elim (set.0 i) [
                | inl none_yet ↦ elim none_yet [ ]
                | inr x ↦ (named f e, (ids, inl (ap (λ (z : Text). (z, ids)) (sym e)), x))
              ]
              | inr y ↦ let (ne, (js, i, x)) = into y in (ne, (js, inr i, x))
            ],
            λ h. elim (h.1.1) [
              | inl e ↦ back' (
                  inl (
                    ap (λ (z : Text × List ℕ). z.0) (sym e),
                    set.1 (
                        inr (
                          subst (λ (js : List ℕ). HasBehind by_id js k)
                            (ap (λ (z : Text × List ℕ). z.1) e) h.1.2)),
                  ))
              | inr i ↦ back' (inr (back (h.0, (h.1.0, i, h.1.2))))
            ],
          )
    ]
  where
    named : (name == codes "*") ≡ false → name ≡ m → m ≢ codes "*"
    named f e star = cc (f, (text_beq_iff name (codes "*")).1 (e ∙ star))
