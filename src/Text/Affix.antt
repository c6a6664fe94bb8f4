-- ===== src/Text/Affix.antt =====
-- Laws of prefixes and suffixes.
use aether_code.Base.{
  ℕ, inl, inr, Option, none, some, [], ◌∷◌, ◌++◌, Text, ◌==◌, text_eq, nat_eq, ==_refl, ==_ne,
  text_beq_iff, Bool-cases, ◌≡◌, ◌≢◌, refl, ap, arith, length, length-append,
}
use aether_code.Text.Defs.{strip_prefix, strip_suffix, cons_some}

pub strip_prefix-append : (p s : Text) → strip_prefix p (p ++ s) ≡ some s
unfolding strip_prefix
strip_prefix-append [] s = refl
strip_prefix-append (c ∷ p) s = rw (==_refl c) (strip_prefix-append p s)

pub strip_prefix_sound : (p s : Text) {t : Text} → strip_prefix p s ≡ some t → s ≡ p ++ t
unfolding strip_prefix
strip_prefix_sound [] s h = cc
strip_prefix_sound (c ∷ p) [] h = cc
strip_prefix_sound (c ∷ p) (d ∷ s) {t} h = ground (arith, strip_prefix_sound p s {t = t})

longer_ne : (c : ℕ) (t suffix : Text) → suffix ≢ c ∷ (t ++ suffix)
longer_ne c t suffix e = omega (arith, ap length e, length-append t suffix)

pub strip_suffix-append : (t suffix : Text) → strip_suffix suffix (t ++ suffix) ≡ some t
unfolding strip_suffix
strip_suffix-append [] [] = rw (==_refl {A = Text} []) refl
strip_suffix-append [] (d ∷ suffix) = rw (==_refl (d ∷ suffix)) refl
strip_suffix-append (c ∷ t) suffix =
    rw (==_ne suffix (c ∷ (t ++ suffix)) (longer_ne c t suffix), strip_suffix-append t suffix) refl

cons_some-eq_some :
    (c : ℕ) (o : Option Text) {t : Text}
    → cons_some c o ≡ some t
    → (r : Text) × (o ≡ some r) × (t ≡ c ∷ r)
cons_some-eq_some c none h = cc
cons_some-eq_some c (some r) h = (r, refl, cc)

pub strip_suffix_sound :
    (suffix s : Text) {t : Text} → strip_suffix suffix s ≡ some t → s ≡ t ++ suffix
unfolding strip_suffix
strip_suffix_sound suffix [] h = ground (arith, text_beq_iff suffix [])
strip_suffix_sound suffix (c ∷ s) {t} h = elim (Bool-cases (suffix == (c ∷ s))) [
  | inl e ↦
      let whole : some [] ≡ some t = rw (e, strip_suffix) at h in
      let same : suffix ≡ c ∷ s = (text_beq_iff suffix (c ∷ s)).0 e in ground arith
  | inr e ↦
      let (r, found, built) =
        cons_some-eq_some c (strip_suffix suffix s) (rw (e, strip_suffix) at h) in
      let rest : s ≡ r ++ suffix = strip_suffix_sound suffix s found in rw (built, rest) refl
]
