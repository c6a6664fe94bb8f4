-- ===== src/Store/Cache/Models/Sets.antt =====
-- The set of the capabilities behind the ids of one model.
use aether_code.Base.{
  ℕ, Bool, true, false, List, [], ◌∷◌, ◌++◌, Option, none, some, Text, text_eq, nat_eq,
  if◌then◌else◌, In, In-append, In-append_left, In-append_right, Bool-cases, inl, inr, ◌⊎◌, ◌↔◌,
  ◌≡◌, refl, sym, subst, lookup, some-injective,
}
use aether_code.Store.Capability.{seen_in}
use aether_code.Store.Capability.Laws.{seen_in_iff}
use aether_code.Store.Provider.{Provider, normalized_endpoint_capabilities}
use aether_code.Store.Cache.{is_enabled}
use aether_code.Store.Cache.Models.{add_capabilities, add_row, capability_set}

In-append_one : (a b : Text) (xs : List Text) → In a (xs ++ b ∷ []) ↔ (In a xs ⊎ (a ≡ b))
In-append_one a b xs = (
  λ h. elim (In-append a xs (b ∷ []) h) [
    | inl l ↦ inl l
    | inr (inl e) ↦ inr e
    | inr (inr e) ↦ elim e [ ]
  ],
  λ h. elim h [
    | inl l ↦ In-append_left a xs (b ∷ []) l
    | inr e ↦ In-append_right a xs (b ∷ []) (inl e)
  ],
)

In-add_one :
    (a k : Text) (set : List Text)
    → In a (if seen_in set k then set else set ++ k ∷ []) ↔ (In a set ⊎ (a ≡ k))
In-add_one a k set = elim (Bool-cases (seen_in set k)) [
  | inl t ↦
      let there = (seen_in_iff set k).0 t in
      rw t (λ h. inl h, λ h. elim h [ inl i ↦ i | inr e ↦ subst (λ x. In x set) (sym e) there ])
  | inr f ↦ rw f (In-append_one a k set)
]

In-add_capabilities :
    (a : Text) (ks set : List Text) → In a (add_capabilities ks set) ↔ (In a set ⊎ In a ks)
unfolding add_capabilities
In-add_capabilities a [] set = (λ h. inl h, λ h. elim h [ inl i ↦ i | inr i ↦ elim i [ ] ])
In-add_capabilities a (k ∷ ks) set =
    let (into, back) = In-add_capabilities a ks (if seen_in set k then set else set ++ k ∷ []) in
    let (into', back') = In-add_one a k set in
    (
      λ h. elim (into h) [
        | inl i ↦ elim (into' i) [ inl j ↦ inl j | inr e ↦ inr (inl e) ]
        | inr i ↦ inr (inr i)
      ],
      λ h. elim h [
        | inl i ↦ back (inl (back' (inl i)))
        | inr (inl e) ↦ back (inl (back' (inr e)))
        | inr (inr i) ↦ back (inr i)
      ],
    )

-- The row has the capability and is enabled.
abbrev pub Has : Text → Provider → Type 0
Has a p = (is_enabled p ≡ true) × In a (normalized_endpoint_capabilities p)

In-add_row :
    (a : Text) (o : Option Provider) (set : List Text)
    → In a (add_row o set) ↔ (In a set ⊎ ((p : Provider) × (o ≡ some p) × Has a p))
In-add_row a none set = (λ h. inl h, λ h. elim h [ inl i ↦ i | inr x ↦ absurd (gone x.1) ])
  where
    gone : {p : Provider} → none ≡ some p → ⊥
    gone e = cc
In-add_row a (some q) set = elim (Bool-cases (is_enabled q)) [
  | inl t ↦
      let (into, back) = In-add_capabilities a (normalized_endpoint_capabilities q) set in
      rw t (
        λ h. elim (into h) [ inl i ↦ inl i | inr i ↦ inr (q, refl, (t, i)) ],
        λ h. elim h [
          | inl i ↦ back (inl i)
          | inr x ↦ back (
              inr (
                subst (λ (p : Provider). In a (normalized_endpoint_capabilities p))
                  (sym (some-injective x.1)) x.2.1))
        ],
      )
  | inr f ↦ rw f (
    λ h. inl h,
    λ h. elim h [
      | inl i ↦ i
      | inr x ↦
          absurd (
            clash f
              (subst (λ (p : Provider). is_enabled p ≡ true) (sym (some-injective x.1)) x.2.0))
    ],
  )
]
  where
    clash : {b : Bool} → b ≡ false → b ≡ true → ⊥
    clash f t = cc

-- A row behind one of the ids has the capability.
abbrev pub HasBehind : List (ℕ × Provider) → List ℕ → Text → Type 0
HasBehind by_id ids a =
    (id : ℕ) × In id ids × ((p : Provider) × (lookup id by_id ≡ some p) × Has a p)

pub In-capability_set :
    (by_id : List (ℕ × Provider)) (a : Text) (ids : List ℕ) (set : List Text)
    → In a (capability_set by_id ids set) ↔ (In a set ⊎ HasBehind by_id ids a)
unfolding capability_set
In-capability_set by_id a [] set = (λ h. inl h, λ h. elim h [ inl i ↦ i | inr x ↦ elim (x.1) [ ] ])
In-capability_set by_id a (id ∷ ids) set =
    let (into, back) = In-capability_set by_id a ids (add_row (lookup id by_id) set) in
    let (into', back') = In-add_row a (lookup id by_id) set in
    (
      λ h. elim (into h) [
        | inl i ↦ elim (into' i) [ inl j ↦ inl j | inr x ↦ inr (id, inl refl, x) ]
        | inr x ↦ inr (x.0, inr x.1, x.2)
      ],
      λ h. elim h [
        | inl i ↦ back (inl (back' (inl i)))
        | inr (j, inl e, x) ↦ back (
            inl (
              back' (
                inr (subst (λ (i : ℕ). (p : Provider) × (lookup i by_id ≡ some p) × Has a p) e x))))
        | inr (j, inr i, x) ↦ back (inr (j, i, x))
      ],
    )
