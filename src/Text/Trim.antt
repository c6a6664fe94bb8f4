-- ===== src/Text/Trim.antt =====
-- Laws of trimming and of letter case.
use aether_code.Base.{ℕ, Bool, false, [], ◌∷◌, Text, ◌==◌, nat_eq, ◌≡◌, refl, ap, arith, ◌∙◌}
use aether_code.Text.Defs.{
  is_space, drop_left, drop_right, put_left, trim_space, trim, to_lower, lower_byte,
}

module _ (p : ℕ → Bool) where
  -- The text does not begin with a byte of the cutset.
  abbrev Clean : Text → Type 0
  Clean [] = Unit {0}
  Clean (c ∷ s) = p c ≡ false

  drop_left-Clean : (s : Text) → Clean (drop_left p s)
  unfolding drop_left
  drop_left-Clean [] = tt
  drop_left-Clean (c ∷ s) = ground (arith, drop_left-Clean s)

  drop_left_of_Clean : (s : Text) → Clean s → drop_left p s ≡ s
  unfolding drop_left
  drop_left_of_Clean [] h = refl
  drop_left_of_Clean (c ∷ s) h = rw h refl

  put_left-Clean : (c : ℕ) (s : Text) → p c ≡ false → Clean (put_left p c s)
  put_left-Clean c [] h = rw h h
  put_left-Clean c (d ∷ s) h = h

  drop_right-Clean : (s : Text) → Clean s → Clean (drop_right p s)
  unfolding drop_right
  drop_right-Clean [] h = tt
  drop_right-Clean (c ∷ s) h = put_left-Clean c (drop_right p s) h

  drop_right-put_left :
      (c : ℕ) (s : Text) → drop_right p s ≡ s → drop_right p (put_left p c s) ≡ put_left p c s
  unfolding drop_right
  drop_right-put_left c [] h = ground arith
  drop_right-put_left c (d ∷ s) h = rw h refl

  drop_right_idem : (s : Text) → drop_right p (drop_right p s) ≡ drop_right p s
  unfolding drop_right
  drop_right_idem [] = refl
  drop_right_idem (c ∷ s) = drop_right-put_left c (drop_right p s) (drop_right_idem s)

  pub drop_both_idem :
      (s : Text)
      → drop_right p (drop_left p (drop_right p (drop_left p s))) ≡ drop_right p (drop_left p s)
  drop_both_idem s =
      rw (drop_left_of_Clean _ (drop_right-Clean _ (drop_left-Clean s)))
        (drop_right_idem (drop_left p s))

-- Trimming twice is trimming once.
pub trim_space_idem : (s : Text) → trim_space (trim_space s) ≡ trim_space s
unfolding trim_space
trim_space_idem s = drop_both_idem is_space s

pub trim_idem : (s : Text) (cut : ℕ) → trim (trim s cut) cut ≡ trim s cut
unfolding trim
trim_idem s cut = drop_both_idem (λ c. c == cut) s

pub to_lower_idem : (s : Text) → to_lower (to_lower s) ≡ to_lower s
unfolding to_lower
to_lower_idem [] = refl
to_lower_idem (c ∷ s) = ground (arith, to_lower_idem s)

-- Case folding commutes with trimming: it changes no white space.
drop_left-to_lower : (s : Text) → drop_left is_space (to_lower s) ≡ to_lower (drop_left is_space s)
unfolding drop_left to_lower
drop_left-to_lower [] = refl
drop_left-to_lower (c ∷ s) = ground (arith, drop_left-to_lower s)

put_left-to_lower :
    (c : ℕ) (s : Text)
    → put_left is_space (lower_byte c) (to_lower s) ≡ to_lower (put_left is_space c s)
unfolding to_lower
put_left-to_lower c [] = ground arith
put_left-to_lower c (d ∷ s) = refl

drop_right-to_lower :
    (s : Text) → drop_right is_space (to_lower s) ≡ to_lower (drop_right is_space s)
unfolding drop_right to_lower
drop_right-to_lower [] = refl
drop_right-to_lower (c ∷ s) =
    ap (put_left is_space (lower_byte c)) (drop_right-to_lower s)
    ∙ put_left-to_lower c (drop_right is_space s)

pub trim_space-to_lower : (s : Text) → trim_space (to_lower s) ≡ to_lower (trim_space s)
unfolding trim_space
trim_space-to_lower s =
    ap (drop_right is_space) (drop_left-to_lower s) ∙ drop_right-to_lower (drop_left is_space s)
