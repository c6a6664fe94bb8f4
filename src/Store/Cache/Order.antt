-- ===== src/Store/Cache/Order.antt =====
-- The sort of the ids of a model: it keeps the ids and puts higher priorities first.
use aether_code.Base.{
  ℕ, Bool, true, false, List, [], ◌∷◌, Text, text_eq, int_eq, ℤ, ◌≤ℤ◌, All, In, Bool-cases, inl,
  inr, ◌⊎◌, ◌↔◌, ◌≡◌, refl, arith, lookup,
}
use aether_code.Store.Provider.{Provider}
use aether_code.Store.Cache.{row_of, before, place, sort_stable, sort_entries, ids_of}

module _ (less : ℕ → ℕ → Bool) where
  In-place : (a x : ℕ) (ys : List ℕ) → In a (place less x ys) ↔ ((a ≡ x) ⊎ In a ys)
  unfolding place
  In-place a x [] = (λ h. h, λ h. h)
  In-place a x (y ∷ ys) = elim (Bool-cases (less y x)) [
    | inl t ↦
        let (into, back) = In-place a x ys in rw t (ground (arith, into), ground (arith, back))
    | inr f ↦ rw f (λ h. h, λ h. h)
  ]

  pub In-sort_stable : (a : ℕ) (xs : List ℕ) → In a (sort_stable less xs) ↔ In a xs
  unfolding sort_stable
  In-sort_stable a [] = (λ h. h, λ h. h)
  In-sort_stable a (x ∷ xs) =
      let (into, back) = In-place a x (sort_stable less xs) in
      let (into', back') = In-sort_stable a xs in
      (ground (arith, into, into'), ground (arith, back, back'))

abbrev pub priority_of : List (ℕ × Provider) → ℕ → ℤ
priority_of by_id id = (row_of by_id id).priority

-- No id has a higher priority than one in front of it.
module _ (by_id : List (ℕ × Provider)) where
  abbrev pub Descends : List ℕ → Type 0
  Descends [] = Unit
  Descends (i ∷ is) = All (λ j. priority_of by_id j ≤ℤ priority_of by_id i) is × Descends is

  All-place :
      (k : ℤ) (x : ℕ) (ys : List ℕ)
      → priority_of by_id x ≤ℤ k
      → All (λ j. priority_of by_id j ≤ℤ k) ys
      → All (λ j. priority_of by_id j ≤ℤ k) (place (before by_id) x ys)
  unfolding place
  All-place k x [] h g = (h, tt)
  All-place k x (y ∷ ys) h g = elim (Bool-cases (before by_id y x)) [
    | inl t ↦ rw t (g.0, All-place k x ys h g.1)
    | inr f ↦ rw f (h, g)
  ]

  All-le :
      (k l : ℤ) (ys : List ℕ)
      → k ≤ℤ l
      → All (λ j. priority_of by_id j ≤ℤ k) ys
      → All (λ j. priority_of by_id j ≤ℤ l) ys
  All-le k l [] h g = tt
  All-le k l (y ∷ ys) h g = (omega arith, All-le k l ys h g.1)

  before_true : (i j : ℕ) → before by_id i j ≡ true → priority_of by_id j ≤ℤ priority_of by_id i
  unfolding before
  before_true i j h = ground arith

  before_false : (i j : ℕ) → before by_id i j ≡ false → priority_of by_id i ≤ℤ priority_of by_id j
  unfolding before
  before_false i j h = ground arith

  place-Descends : (x : ℕ) (ys : List ℕ) → Descends ys → Descends (place (before by_id) x ys)
  unfolding place
  place-Descends x [] d = (tt, tt)
  place-Descends x (y ∷ ys) d = elim (Bool-cases (before by_id y x)) [
    | inl t ↦
        rw t (All-place (priority_of by_id y) x ys (before_true y x t) d.0, place-Descends x ys d.1)
    | inr f ↦
        let le = before_false y x f in
        rw f ((le, All-le (priority_of by_id y) (priority_of by_id x) ys le d.0), d)
  ]

  pub sort_stable-Descends : (xs : List ℕ) → Descends (sort_stable (before by_id) xs)
  unfolding sort_stable
  sort_stable-Descends [] = tt
  sort_stable-Descends (x ∷ xs) = place-Descends x _ (sort_stable-Descends xs)

  pub ids_of-sort_entries :
      (model : Text) (by_model : List (Text × List ℕ))
      → ids_of model (sort_entries by_id by_model)
        ≡ sort_stable (before by_id) (ids_of model by_model)
  unfolding sort_entries lookup
  ids_of-sort_entries model [] = unfold sort_stable in refl
  ids_of-sort_entries model ((m, ids) ∷ by_model) =
      ground (arith, ids_of-sort_entries model by_model)
