-- ===== src/Text/Frame.antt =====
-- Several texts in one, each behind a mark and its length, and maps as texts: what a codec at concrete
-- inputs writes.
use aether_code.Base.{
  Bool-cases, inl, inr, ◌==◌, text_eq, lookup, insert, lookup-insert, insert-HasDistinctKeys,
  HasDistinctKeys, ℕ, zero, suc, ◌≤◌, List, [], ◌∷◌, ◌++◌, Text, length, length-append, ◌≡◌, refl,
  ap, ◌∙◌, arith,
}
use aether_code.Text.Defs.{take, drop}

unfoldable pub frame : List Text → Text
frame [] = []
frame (t ∷ ts) = b',' ∷ length t ∷ (t ++ frame ts)

-- The first argument bounds the number of texts.
unfoldable pub unframe : ℕ → Text → List Text
unframe zero s = []
unframe (suc fuel) [] = []
unframe (suc fuel) (mark ∷ []) = []
unframe (suc fuel) (mark ∷ n ∷ s) = take n s ∷ unframe fuel (drop n s)

take-append : (t s : Text) → take (length t) (t ++ s) ≡ t
unfolding take
take-append [] [] = refl
take-append [] (c ∷ s) = refl
take-append (c ∷ t) s = ap (λ (x : Text). c ∷ x) (take-append t s)

drop-append : (t s : Text) → drop (length t) (t ++ s) ≡ s
unfolding drop
drop-append [] [] = refl
drop-append [] (c ∷ s) = refl
drop-append (c ∷ t) s = drop-append t s

unframe_enough : (fuel : ℕ) (ts : List Text) → length ts ≤ fuel → unframe fuel (frame ts) ≡ ts
unfolding unframe frame
unframe_enough zero [] h = refl
unframe_enough zero (t ∷ ts) h = absurd (omega arith)
unframe_enough (suc fuel) [] h = refl
unframe_enough (suc fuel) (t ∷ ts) h =
    rw (take-append t (frame ts), drop-append t (frame ts), unframe_enough fuel ts (omega arith))
      refl

length-frame : (ts : List Text) → length ts ≤ length (frame ts)
unfolding frame
length-frame [] = omega arith
length-frame (t ∷ ts) = omega (arith, length-append t (frame ts), length-frame ts)

-- The length of the text is enough.
pub unframe-frame : (ts : List Text) → unframe (length (frame ts)) (frame ts) ≡ ts
unframe-frame ts = unframe_enough (length (frame ts)) ts (length-frame ts)

-- The keys and the values of a map in turn.
unfoldable pub flat : List (Text × Text) → List Text
flat [] = []
flat ((k, v) ∷ m) = k ∷ v ∷ flat m

unfoldable pub pairs : List Text → List (Text × Text)
pairs [] = []
pairs (k ∷ []) = []
pairs (k ∷ v ∷ ts) = insert k v (pairs ts)

pub pairs-HasDistinctKeys : (ts : List Text) → HasDistinctKeys (pairs ts)
unfolding pairs
pairs-HasDistinctKeys [] = tt
pairs-HasDistinctKeys (k ∷ []) = tt
pairs-HasDistinctKeys (k ∷ v ∷ ts) =
    insert-HasDistinctKeys k v (pairs ts) (pairs-HasDistinctKeys ts)

pub lookup-pairs : (m : List (Text × Text)) (k : Text) → lookup k (pairs (flat m)) ≡ lookup k m
unfolding pairs flat lookup
lookup-pairs [] k = refl
lookup-pairs ((j, v) ∷ m) k =
    lookup-insert j k v (pairs (flat m))
    ∙ elim (Bool-cases (j == k)) [ inl t ↦ rw t refl | inr f ↦ rw f (lookup-pairs m k) ]
