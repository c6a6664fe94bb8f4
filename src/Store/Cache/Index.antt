-- ===== src/Store/Cache/Index.antt =====
-- The maps that `Replace` builds: which ids serve a model, and the row behind an id.
use aether_code.Base.{
  ℕ, Bool, true, false, List, [], ◌∷◌, ◌++◌, some, Text, ◌==◌, text_eq, nat_eq, int_eq,
  if◌then◌else◌, All, In, In-append, In-append_left, In-append_right, Bool-cases, inl, inr, ◌⊎◌,
  ◌↔◌, ◌≡◌, ◌≢◌, refl, sym, subst, ◌∙◌, lookup, insert, lookup-insert, lookup-insert_self,
  text_beq_iff, ==_ne,
}
use aether_code.Store.Provider.{Provider, apply_defaults, model_list}
use aether_code.Store.Cache.{add_models, index_rows, ids_of, is_enabled}

ids_of-insert :
    (m k : Text) (ids : List ℕ) (by_model : List (Text × List ℕ))
    → ids_of m (insert k ids by_model) ≡ (if k == m then ids else ids_of m by_model)
ids_of-insert m k ids by_model =
    rw (lookup-insert k m ids by_model)
      (elim (Bool-cases (k == m)) [ inl t ↦ rw t refl | inr f ↦ rw f refl ])

In-append_one : (a b : ℕ) (xs : List ℕ) → In a (xs ++ b ∷ []) ↔ (In a xs ⊎ (a ≡ b))
In-append_one a b xs = (
  λ h. elim (In-append a xs (b ∷ []) h) [
    | inl l ↦ inl l
    | inr (inl e) ↦ inr e
    | inr (inr e) ↦ elim e [ ]
  ],
  λ h. elim h [
    | inl l ↦ In-append_left a xs (b ∷ []) l
    | inr e ↦ In-append_right a xs (b ∷ []) (inl e)
  ],
)

In-add_one :
    (id : ℕ) (k : Text) (by_model : List (Text × List ℕ)) (a : ℕ) (m : Text)
    → In a (ids_of m (insert k (ids_of k by_model ++ id ∷ []) by_model))
      ↔ (In a (ids_of m by_model) ⊎ ((a ≡ id) × (m ≡ k)))
In-add_one id k by_model a m =
    rw (ids_of-insert m k (ids_of k by_model ++ id ∷ []) by_model) (elim (Bool-cases (k == m)) [
      | inl t ↦
          let same : k ≡ m = (text_beq_iff k m).0 t in
          let (into, back) = In-append_one a id (ids_of k by_model) in
          let there : In a (ids_of k by_model) → In a (ids_of m by_model) =
            subst (λ x. In a (ids_of x by_model)) same in
          let here : In a (ids_of m by_model) → In a (ids_of k by_model) =
            subst (λ x. In a (ids_of x by_model)) (sym same) in
          rw t (
            λ h. elim (into h) [ inl l ↦ inl (there l) | inr e ↦ inr (e, sym same) ],
            λ h. elim h [ inl l ↦ back (inl (here l)) | inr e ↦ back (inr e.0) ],
          )
      | inr f ↦ rw f (λ h. inl h, λ h. elim h [ inl l ↦ l | inr e ↦ absurd (differ f (sym e.1)) ])
    ])
  where
    differ : (k == m) ≡ false → k ≡ m → ⊥
    differ f e = cc (f, (text_beq_iff k m).1 e)

-- After the models of one provider are added, a model's ids are the old ones, and the provider's if it
-- lists the model.
In-add_models :
    (id : ℕ) (models : List Text) (by_model : List (Text × List ℕ)) (a : ℕ) (m : Text)
    → In a (ids_of m (add_models id models by_model))
      ↔ (In a (ids_of m by_model) ⊎ ((a ≡ id) × In m models))
unfolding add_models
In-add_models id [] by_model a m = (λ h. inl h, λ h. elim h [ inl l ↦ l | inr e ↦ elim (e.1) [ ] ])
In-add_models id (k ∷ models) by_model a m =
    let (into, back) =
      In-add_models id models (insert k (ids_of k by_model ++ id ∷ []) by_model) a m in
    let (into', back') = In-add_one id k by_model a m in
    (
      λ h. elim (into h) [
        | inl l ↦ elim (into' l) [ inl o ↦ inl o | inr e ↦ inr (e.0, inl e.1) ]
        | inr e ↦ inr (e.0, inr e.1)
      ],
      λ h. elim h [
        | inl l ↦ back (inl (back' (inl l)))
        | inr (e, inl here) ↦ back (inl (back' (inr (e, here))))
        | inr (e, inr there) ↦ back (inr (e, there))
      ],
    )

-- A row that is enabled and lists the model, after its defaults are applied.
abbrev pub Serves : List Provider → ℕ → Text → Type 0
Serves rows id m =
    (p : Provider) × In p rows
    × (p.id ≡ id)
    × (is_enabled (apply_defaults p) ≡ true)
    × In m (model_list (apply_defaults p))

abbrev added : Provider → List (Text × List ℕ) → List (Text × List ℕ)
added p by_model = if is_enabled p then add_models p.id (model_list p) by_model else by_model

In-added :
    (p : Provider) (by_model : List (Text × List ℕ)) (a : ℕ) (m : Text)
    → In a (ids_of m (added p by_model))
      ↔ (In a (ids_of m by_model) ⊎ ((a ≡ p.id) × (is_enabled p ≡ true) × In m (model_list p)))
In-added p by_model a m = elim (Bool-cases (is_enabled p)) [
  | inl t ↦
      let (into, back) = In-add_models p.id (model_list p) by_model a m in
      rw t (
        λ h. elim (into h) [ inl l ↦ inl l | inr e ↦ inr (e.0, refl, e.1) ],
        λ h. elim h [ inl l ↦ back (inl l) | inr e ↦ back (inr (e.0, e.2)) ],
      )
  | inr f ↦ rw f (λ h. inl h, λ h. elim h [ inl l ↦ l | inr e ↦ absurd (clash (e.1)) ])
]
  where
    clash : false ≡ true → ⊥
    clash e = cc

id-apply_defaults : (p : Provider) → (apply_defaults p).id ≡ p.id
unfolding apply_defaults
id-apply_defaults p = refl

abbrev ServesOne : Provider → ℕ → Text → Type 0
ServesOne p a m = (a ≡ p.id) × (is_enabled p ≡ true) × In m (model_list p)

serves_head :
    (q raw : Provider) (a : ℕ) (m : Text)
    → q ≡ raw
    → q.id ≡ a
    → is_enabled (apply_defaults q) ≡ true
    → In m (model_list (apply_defaults q))
    → ServesOne (apply_defaults raw) a m
serves_head q raw a m e same on lists =
    subst (λ (x : Provider). ServesOne (apply_defaults x) a m) e
      (sym same ∙ sym (id-apply_defaults q), on, lists)

-- An id stands under a model exactly if some row with that id serves the model.
pub In-index_rows :
    (rows : List Provider) (by_id : List (ℕ × Provider)) (by_model : List (Text × List ℕ)) (a : ℕ)
    (m : Text)
    → In a (ids_of m (index_rows rows (by_id, by_model)).1)
      ↔ (In a (ids_of m by_model) ⊎ Serves rows a m)
unfolding index_rows
In-index_rows [] by_id by_model a m =
    (λ h. inl h, λ h. elim h [ inl l ↦ l | inr s ↦ elim (s.1) [ ] ])
In-index_rows (raw ∷ rows) by_id by_model a m =
    let p = apply_defaults raw in
    let (into, back) = In-index_rows rows (insert p.id p by_id) (added p by_model) a m in
    let (into', back') = In-added p by_model a m in
    (
      λ h. elim (into h) [
        | inl l ↦ elim (into' l) [
          | inl o ↦ inl o
          | inr e ↦ inr (raw, inl refl, sym (id-apply_defaults raw) ∙ sym e.0, e.1, e.2)
        ]
        | inr s ↦ inr (s.0, inr s.1, s.2, s.3, s.4)
      ],
      λ h. elim h [
        | inl o ↦ back (inl (back' (inl o)))
        | inr (q, inl here, same, on, lists) ↦
            back (inl (back' (inr (serves_head q raw a m here same on lists))))
        | inr (q, inr there, same, on, lists) ↦ back (inr (q, there, same, on, lists))
      ],
    )

-- The ids of the rows, which the database keeps distinct.
abbrev pub HasDistinctIds : List Provider → Type 0
HasDistinctIds [] = Unit
HasDistinctIds (p ∷ ps) = All (λ q. q.id ≢ p.id) ps × HasDistinctIds ps

lookup_later :
    (rows : List Provider) (by_id : List (ℕ × Provider)) (by_model : List (Text × List ℕ)) (id : ℕ)
    → All (λ q. q.id ≢ id) rows
    → lookup id (index_rows rows (by_id, by_model)).0 ≡ lookup id by_id
unfolding index_rows
lookup_later [] by_id by_model id h = refl
lookup_later (raw ∷ rows) by_id by_model id h =
    let p = apply_defaults raw in
    lookup_later rows (insert p.id p by_id) (added p by_model) id h.1
    ∙ lookup-insert p.id id p by_id
    ∙ skip (==_ne p.id id (λ e. h.0 (sym (id-apply_defaults raw) ∙ e)))
  where
    skip :
        {b : Bool}
        → b ≡ false
        → (if b then some (apply_defaults raw) else lookup id by_id) ≡ lookup id by_id
    skip e = rw e refl

-- With distinct ids, the map holds every row under its id, with its defaults.
pub lookup-index_rows :
    (rows : List Provider) (by_id : List (ℕ × Provider)) (by_model : List (Text × List ℕ))
    (p : Provider)
    → HasDistinctIds rows
    → In p rows
    → lookup p.id (index_rows rows (by_id, by_model)).0 ≡ some (apply_defaults p)
unfolding index_rows
lookup-index_rows [] by_id by_model p d h = elim h [ ]
lookup-index_rows (raw ∷ rows) by_id by_model p d (inl e) =
    subst
      (λ (x : Provider).
        lookup x.id
          (index_rows rows (
            insert (apply_defaults raw).id (apply_defaults raw) by_id,
            added (apply_defaults raw) by_model,
          )).0
        ≡ some (apply_defaults x))
      (sym e) (head_row)
  where
    head_row :
        lookup raw.id
          (index_rows rows (
            insert (apply_defaults raw).id (apply_defaults raw) by_id,
            added (apply_defaults raw) by_model,
          )).0
        ≡ some (apply_defaults raw)
    head_row =
        lookup_later rows _ _ raw.id d.0
        ∙ subst
            (λ k. lookup raw.id (insert k (apply_defaults raw) by_id) ≡ some (apply_defaults raw))
            (sym (id-apply_defaults raw)) (lookup-insert_self raw.id (apply_defaults raw) by_id)
lookup-index_rows (raw ∷ rows) by_id by_model p d (inr h) =
    lookup-index_rows rows (insert (apply_defaults raw).id (apply_defaults raw) by_id)
      (added (apply_defaults raw) by_model) p d.1 h
