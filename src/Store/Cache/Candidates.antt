-- ===== src/Store/Cache/Candidates.antt =====
-- Which providers `SelectForCapability` draws among, and that they stand in order of priority.
use aether_code.Base.{
  ℕ, Bool, true, false, ◌&&◌, List, [], ◌∷◌, Option, none, some, some-injective, Text, text_eq,
  int_eq, nat_eq, ℤ, ◌≤ℤ◌, All, In, Bool-cases, inl, inr, ◌⊎◌, ◌↔◌, ◌≡◌, refl, sym, ap, subst,
  arith, lookup, All-In, In-All,
}
use aether_code.Text.{or_else}
use aether_code.Store.Provider.{Provider, supports_capability}
use aether_code.Store.Cache.Order.{Descends, priority_of}
use aether_code.Store.Cache.{Cache, is_excluded, is_enabled, admit, candidates, zero_provider}

-- The row `p` stands behind an id of the list that is not excluded, is enabled and supports the
-- capability.
abbrev pub IsCandidate : Cache → Text → List ℕ → List ℕ → Provider → Type 0
IsCandidate c capability excluded ids p =
    (id : ℕ) × In id ids
    × (is_excluded excluded id ≡ false)
    × (lookup id c.by_id ≡ some p)
    × (is_enabled p ≡ true)
    × (supports_capability p capability ≡ true)

abbrev Fits : Text → Provider → Type 0
Fits capability p = (is_enabled p ≡ true) × (supports_capability p capability ≡ true)

and_true : (a b : Bool) → (a && b) ≡ true → (a ≡ true) × (b ≡ true)
and_true a b h = ground arith

and_false : (a b : Bool) → (a && b) ≡ false → (a ≡ true) × (b ≡ true) → ⊥
and_false a b h k = ground arith

module _ (c : Cache) (capability : Text) (excluded : List ℕ) where
  In-admit :
      (o : Option Provider) (rest : List Provider) (p : Provider)
      → In p (admit capability o rest) ↔ (
          ((o ≡ some p) × (is_enabled p ≡ true) × (supports_capability p capability ≡ true))
          ⊎ In p rest)
  In-admit none rest p = (λ h. inr h, λ h. elim h [ inl e ↦ absurd_none e.0 | inr r ↦ r ])
    where
      absurd_none : {A : Type 0} → none ≡ some p → A
      absurd_none e = cc
  In-admit (some q) rest p = elim (Bool-cases (is_enabled q && supports_capability q capability)) [
    | inl t ↦
        let fits : Fits capability q = and_true _ _ t in
        rw t (
          λ h. elim h [
            | inl e ↦
                let g = subst (Fits capability) (sym e) fits in inl (ap some (sym e), g.0, g.1)
            | inr r ↦ inr r
          ],
          λ h. elim h [ inl e ↦ inl (sym (some-injective e.0)) | inr r ↦ inr r ],
        )
    | inr f ↦ rw f (
      λ h. inr h,
      λ h. elim h [
        | inl e ↦
            absurd (and_false _ _ f (subst (Fits capability) (sym (some-injective e.0)) (e.1, e.2)))
        | inr r ↦ r
      ],
    )
  ]

  pub In-candidates :
      (ids : List ℕ) (p : Provider)
      → In p (candidates c capability excluded ids) ↔ IsCandidate c capability excluded ids p
  unfolding candidates
  In-candidates [] p = (λ h. elim h [ ], λ h. elim (h.1) [ ])
  In-candidates (id ∷ ids) p =
      let (into, back) = In-candidates ids p in
      elim (Bool-cases (is_excluded excluded id)) [
        | inl t ↦ rw t (
          λ h. let s = into h in (s.0, inr s.1, s.2, s.3, s.4, s.5),
          λ h.
              let (i, at, fresh, row, on, sup) = h in
              elim at [
                | inl e ↦ absurd (seen i id e t fresh)
                | inr later ↦ back (i, later, fresh, row, on, sup)
              ],
        )
        | inr f ↦
            let (into', back') =
              In-admit (lookup id c.by_id) (candidates c capability excluded ids) p in
            rw f (
              λ h. elim (into' h) [
                | inl e ↦ (id, inl refl, f, e.0, e.1, e.2)
                | inr r ↦ let s = into r in (s.0, inr s.1, s.2, s.3, s.4, s.5)
              ],
              λ h.
                  let (i, at, fresh, row, on, sup) = h in
                  elim at [
                    | inl e ↦
                        back' (inl (subst (λ (x : ℕ). lookup x c.by_id ≡ some p) e row, on, sup))
                    | inr later ↦ back' (inr (back (i, later, fresh, row, on, sup)))
                  ],
            )
      ]
    where
      seen : (i j : ℕ) → i ≡ j → is_excluded excluded j ≡ true → is_excluded excluded i ≡ false → ⊥
      seen i j e t f = cc (t, f, ap (is_excluded excluded) e)

-- No provider has a higher priority than one in front of it.
abbrev pub InOrder : List Provider → Type 0
InOrder [] = Unit
InOrder (p ∷ ps) = All (λ q. q.priority ≤ℤ p.priority) ps × InOrder ps

module _ (c : Cache) (capability : Text) (excluded : List ℕ) where
  row-priority :
      (id : ℕ) (p : Provider) → lookup id c.by_id ≡ some p → priority_of c.by_id id ≡ p.priority
  row-priority id p e = ap (λ (o : Option Provider). (or_else o zero_provider).priority) e

  candidates-le :
      (k : ℤ) (ids : List ℕ)
      → All (λ j. priority_of c.by_id j ≤ℤ k) ids
      → All (λ q. q.priority ≤ℤ k) (candidates c capability excluded ids)
  candidates-le k ids h = In-All _ _ (λ q i.
      let (id, at, _, row, _, _) = (In-candidates c capability excluded ids q).0 i in
      subst (λ (x : ℤ). x ≤ℤ k) (row-priority id q row) (All-In _ id ids h at))

  admit-InOrder :
      (o : Option Provider) (rest : List Provider)
      → ((p : Provider) → o ≡ some p → All (λ q. q.priority ≤ℤ p.priority) rest)
      → InOrder rest
      → InOrder (admit capability o rest)
  admit-InOrder none rest h r = r
  admit-InOrder (some p) rest h r =
      elim (Bool-cases (is_enabled p && supports_capability p capability)) [
        | inl t ↦ rw t (h p refl, r)
        | inr f ↦ rw f r
      ]

  pub candidates-InOrder :
      (ids : List ℕ) → Descends c.by_id ids → InOrder (candidates c capability excluded ids)
  unfolding candidates
  candidates-InOrder [] d = tt
  candidates-InOrder (id ∷ ids) d = elim (Bool-cases (is_excluded excluded id)) [
    | inl t ↦ rw t (candidates-InOrder ids d.1)
    | inr f ↦ rw f (
        admit-InOrder (lookup id c.by_id) (candidates c capability excluded ids)
          (λ p row. candidates-le p.priority ids (
            subst (λ (x : ℤ). All (λ j. priority_of c.by_id j ≤ℤ x) ids) (row-priority id p row)
              d.0))
          (candidates-InOrder ids d.1))
  ]
