-- ===== src/Text/Split.antt =====
-- Laws of splitting.
use aether_code.Base.{
  ℕ, Bool, false, inl, inr, List, [], ◌∷◌, ◌++◌, Text, ◌==◌, nat_eq, Bool-cases, ◌≡◌, refl, All,
}
use aether_code.Text.Defs.{
  split_by, cons_head, drop_left, drop_right, put_left, trim, trim_space, is_space,
}

module _ (p : ℕ → Bool) where
  abbrev pub Lacks : Text → Type 0
  Lacks = All (λ c. p c ≡ false)

  cons_head-Lacks :
      (c : ℕ) (ps : List Text) → p c ≡ false → All Lacks ps → All Lacks (cons_head c ps)
  cons_head-Lacks c [] h k = ((h, tt), tt)
  cons_head-Lacks c (q ∷ ps) h k = ((h, k.0), k.1)

  -- No part of a split text holds a separator.
  pub split_by-Lacks : (s : Text) → All Lacks (split_by p s)
  unfolding split_by
  split_by-Lacks [] = (tt, tt)
  split_by-Lacks (c ∷ s) = elim (Bool-cases (p c)) [
    | inl t ↦ rw t (tt, split_by-Lacks s)
    | inr f ↦ rw f (cons_head-Lacks c _ f (split_by-Lacks s))
  ]

  pub split_by-append :
      (q rest : Text) (parts : List Text)
      → Lacks q
      → split_by p rest ≡ [] ∷ parts
      → split_by p (q ++ rest) ≡ q ∷ parts
  unfolding split_by
  split_by-append [] rest parts h e = e
  split_by-append (c ∷ q) rest parts h e = rw (h.0, split_by-append q rest parts h.1 e) refl

module _ (p q : ℕ → Bool) where
  -- Trimming takes no byte in.
  pub drop_left-Lacks : (s : Text) → Lacks p s → Lacks p (drop_left q s)
  unfolding drop_left
  drop_left-Lacks [] h = tt
  drop_left-Lacks (c ∷ s) h = elim (Bool-cases (q c)) [
    | inl t ↦ rw t (drop_left-Lacks s h.1)
    | inr f ↦ rw f h
  ]

  put_left-Lacks : (c : ℕ) (s : Text) → p c ≡ false → Lacks p s → Lacks p (put_left q c s)
  put_left-Lacks c [] h k = elim (Bool-cases (q c)) [ inl t ↦ rw t tt | inr f ↦ rw f (h, tt) ]
  put_left-Lacks c (d ∷ s) h k = (h, k)

  pub drop_right-Lacks : (s : Text) → Lacks p s → Lacks p (drop_right q s)
  unfolding drop_right
  drop_right-Lacks [] h = tt
  drop_right-Lacks (c ∷ s) h = put_left-Lacks c _ h.0 (drop_right-Lacks s h.1)

module _ (p : ℕ → Bool) where
  -- A text with no separator is its own only part, and trimming leaves it alone.
  pub split_by_of_Lacks : (s : Text) → Lacks p s → split_by p s ≡ s ∷ []
  unfolding split_by
  split_by_of_Lacks [] h = refl
  split_by_of_Lacks (c ∷ s) h = rw (h.0, split_by_of_Lacks s h.1) refl

  drop_left_of_Lacks : (s : Text) → Lacks p s → drop_left p s ≡ s
  unfolding drop_left
  drop_left_of_Lacks [] h = refl
  drop_left_of_Lacks (c ∷ s) h = rw h.0 refl

  pub put_left_of : (c : ℕ) (s : Text) → p c ≡ false → put_left p c s ≡ c ∷ s
  put_left_of c [] h = rw h refl
  put_left_of c (d ∷ s) h = refl

  drop_right_of_Lacks : (s : Text) → Lacks p s → drop_right p s ≡ s
  unfolding drop_right
  drop_right_of_Lacks [] h = refl
  drop_right_of_Lacks (c ∷ s) h = rw (drop_right_of_Lacks s h.1) (put_left_of c s h.0)

  pub drop_both_of_Lacks : (s : Text) → Lacks p s → drop_right p (drop_left p s) ≡ s
  drop_both_of_Lacks s h = rw (drop_left_of_Lacks s h) (drop_right_of_Lacks s h)

pub trim_space_of_Lacks : (s : Text) → Lacks is_space s → trim_space s ≡ s
unfolding trim_space
trim_space_of_Lacks s h = drop_both_of_Lacks is_space s h

pub trim_of_Lacks : (cut : ℕ) (s : Text) → Lacks (λ c. c == cut) s → trim s cut ≡ s
unfolding trim
trim_of_Lacks cut s h = drop_both_of_Lacks (λ c. c == cut) s h
