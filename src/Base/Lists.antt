-- ===== src/Base/Lists.antt =====
-- Lists measured by native numbers, predicates on lists, and loops that test their elements.
use Prim.Native.Nat.{ℕ, suc, ◌+◌}
use mathlib.Core.Path.{◌≡◌, refl, sym, ap, subst}
use mathlib.Core.Logic.{◌⊎◌, inl, inr}
use mathlib.Core.Bool.{Bool, true, false, ◌||◌}
use mathlib.Core.List.{List, [], ◌∷◌, ◌++◌}
use native.Mathlib.Omega.{arith}
use aether_code.Base.Tests.{if◌then◌else◌, Bool-cases}

module _ {ℓ} {A : Type ℓ} where
  abbrev pub length : List A → ℕ
  length [] = 0
  length (x ∷ xs) = suc (length xs)

  pub length-append : (xs ys : List A) → length (xs ++ ys) ≡ length xs + length ys
  length-append [] ys = omega arith
  length-append (x ∷ xs) ys = omega (arith, length-append xs ys)

  -- The elements that pass a test, in order: the loop `if !p(x) { continue }; out = append(out, x)`.
  unfoldable pub keep : (A → Bool) → List A → List A
  keep p [] = []
  keep p (x ∷ xs) = let rest = keep p xs in if p x then x ∷ rest else rest

  pub keep_all : (xs : List A) → keep (λ _. true) xs ≡ xs
  unfolding keep
  keep_all [] = refl
  keep_all (x ∷ xs) = ap (◌∷◌ x) (keep_all xs)

  abbrev pub any : (A → Bool) → List A → Bool
  any p [] = false
  any p (x ∷ xs) = p x || any p xs

module _ {ℓ κ} {A : Type ℓ} (P : A → Type κ) where
  abbrev pub All : List A → Type κ
  All [] = Unit
  All (x ∷ xs) = P x × All xs

  pub All-append : (xs ys : List A) → All xs → All ys → All (xs ++ ys)
  All-append [] ys hx hy = hy
  All-append (x ∷ xs) ys hx hy = (hx.0, All-append xs ys hx.1 hy)

  pub All-keep : (p : A → Bool) (xs : List A) → All xs → All (keep p xs)
  unfolding keep
  All-keep p [] h = tt
  All-keep p (x ∷ xs) h = elim (Bool-cases (p x)) [
    | inl t ↦ rw t (h.0, All-keep p xs h.1)
    | inr f ↦ rw f (All-keep p xs h.1)
  ]

  pub keep_sound : (p : A → Bool) (xs : List A) → ((a : A) → p a ≡ true → P a) → All (keep p xs)
  unfolding keep
  keep_sound p [] h = tt
  keep_sound p (x ∷ xs) h = elim (Bool-cases (p x)) [
    | inl t ↦ rw t (h x t, keep_sound p xs h)
    | inr f ↦ rw f (keep_sound p xs h)
  ]

-- Membership as a computed type: the places at which an element stands.
module _ {A : Type 0} where
  abbrev pub In : A → List A → Type 0
  In a [] = ⊥
  In a (x ∷ xs) = (a ≡ x) ⊎ In a xs

  pub In-append_left : (a : A) (xs ys : List A) → In a xs → In a (xs ++ ys)
  In-append_left a [] ys h = elim h [ ]
  In-append_left a (x ∷ xs) ys (inl e) = inl e
  In-append_left a (x ∷ xs) ys (inr h) = inr (In-append_left a xs ys h)

  pub In-append_right : (a : A) (xs ys : List A) → In a ys → In a (xs ++ ys)
  In-append_right a [] ys h = h
  In-append_right a (x ∷ xs) ys h = inr (In-append_right a xs ys h)

  pub In-append : (a : A) (xs ys : List A) → In a (xs ++ ys) → In a xs ⊎ In a ys
  In-append a [] ys h = inr h
  In-append a (x ∷ xs) ys (inl e) = inl (inl e)
  In-append a (x ∷ xs) ys (inr h) = elim (In-append a xs ys h) [
    | inl l ↦ inl (inr l)
    | inr r ↦ inr r
  ]

  pub All-In {κ} : (P : A → Type κ) (a : A) (xs : List A) → All P xs → In a xs → P a
  All-In P a [] h i = elim i [ ]
  All-In P a (x ∷ xs) h (inl e) = subst P (sym e) h.0
  All-In P a (x ∷ xs) h (inr i) = All-In P a xs h.1 i

  pub In-All {κ} : (P : A → Type κ) (xs : List A) → ((a : A) → In a xs → P a) → All P xs
  In-All P [] h = tt
  In-All P (x ∷ xs) h = (h x (inl refl), In-All P xs (λ a i. h a (inr i)))

  In-keep_head :
      (p : A → Bool) (a x : A) (xs : List A)
      → p x ≡ true
      → In a (x ∷ keep p xs)
      → (In a (keep p xs) → In a xs × (p a ≡ true))
      → In a (x ∷ xs) × (p a ≡ true)
  In-keep_head p a x xs t (inl e) k = (inl e, rw (e) t)
  In-keep_head p a x xs t (inr h) k = let r = k h in (inr r.0, r.1)

  pub In-keep : (p : A → Bool) (a : A) (xs : List A) → In a (keep p xs) → In a xs × (p a ≡ true)
  unfolding keep
  In-keep p a [] h = elim h [ ]
  In-keep p a (x ∷ xs) h = elim (Bool-cases (p x)) [
    | inl t ↦ In-keep_head p a x xs t (rw (t, keep) at h) (In-keep p a xs)
    | inr f ↦ let r : In a xs × (p a ≡ true) = In-keep p a xs (rw (f, keep) at h) in (inr r.0, r.1)
  ]

  pub keep-In : (p : A → Bool) (a : A) (xs : List A) → In a xs → p a ≡ true → In a (keep p xs)
  unfolding keep
  keep-In p a [] h t = elim h [ ]
  keep-In p a (x ∷ xs) (inl e) t = rw (← e, t) (inl refl)
  keep-In p a (x ∷ xs) (inr h) t = elim (Bool-cases (p x)) [
    | inl u ↦ rw u (inr (keep-In p a xs h t))
    | inr u ↦ rw u (keep-In p a xs h t)
  ]
