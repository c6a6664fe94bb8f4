-- ===== src/Base/Map.antt =====
-- Go maps as association lists that hold each key once.
use mathlib.Core.Path.{◌≡◌, refl, sym, ap, ◌∙◌, subst}
use mathlib.Core.Logic.{inl, inr}
use mathlib.Core.Bool.{Bool, false}
use mathlib.Core.Option.{Option, none, some}
use mathlib.Core.List.{List, [], ◌∷◌}
use native.Mathlib.Omega.{arith}
use aether_code.Base.Lists.{In}
use aether_code.Base.Tests.{if◌then◌else◌, Eq, ◌==◌, ==_refl, Bool-cases, some-injective}

module _ {ℓ κ} {K : Type ℓ} {V : Type κ} ⦃e : Eq K⦄ where
  unfoldable pub lookup : K → List (K × V) → Option V
  lookup k [] = none
  lookup k ((j, v) ∷ m) = let rest = lookup k m in if j == k then some v else rest

  -- `m[k] = v`
  unfoldable pub insert : K → V → List (K × V) → List (K × V)
  insert k v [] = (k, v) ∷ []
  insert k v ((j, w) ∷ m) = let rest = insert k v m in if j == k then (k, v) ∷ m else (j, w) ∷ rest

  pub lookup-insert :
      (key other : K) (v : V) (m : List (K × V))
      → lookup other (insert key v m) ≡ (if key == other then some v else lookup other m)
  unfolding lookup insert
  lookup-insert key other v [] = refl
  lookup-insert key other v ((at, w) ∷ m) = ground (
    arith,
    e.same_iff key other,
    e.same_iff at key,
    e.same_iff at other,
    lookup-insert key other v m,
  )

  pub lookup-insert_self : (k : K) (v : V) (m : List (K × V)) → lookup k (insert k v m) ≡ some v
  lookup-insert_self k v m = rw (lookup-insert k k v m, ==_refl k)

module _ {K V : Type 0} ⦃e : Eq K⦄ where
  abbrev pub HasDistinctKeys : List (K × V) → Type 0
  HasDistinctKeys [] = Unit
  HasDistinctKeys ((k, v) ∷ m) = (lookup k m ≡ none) × HasDistinctKeys m

  pub insert-HasDistinctKeys :
      (k : K) (v : V) (m : List (K × V)) → HasDistinctKeys m → HasDistinctKeys (insert k v m)
  unfolding insert
  insert-HasDistinctKeys k v [] d = (unfold lookup in refl, tt)
  insert-HasDistinctKeys k v ((j, w) ∷ m) d = elim (Bool-cases (j == k)) [
    | inl t ↦ rw t (subst (λ (i : K). lookup i m ≡ none) ((e.same_iff j k).0 t) d.0, d.1)
    | inr f ↦
        let other : (k == j) ≡ false = differs j k f in
        rw f (
          lookup-insert k j v m ∙ ap (λ (b : Bool). if b then some v else lookup j m) other ∙ d.0,
          insert-HasDistinctKeys k v m d.1,
        )
  ]
    where
      differs : (i l : K) → (i == l) ≡ false → (l == i) ≡ false
      differs i l f = elim (Bool-cases (l == i)) [
        | inl t ↦ cc (f, (e.same_iff i l).1 (sym ((e.same_iff l i).0 t)))
        | inr g ↦ g
      ]

  -- With distinct keys an entry is what a lookup of its key finds.
  pub lookup_of_In :
      (k : K) (v : V) (m : List (K × V)) → HasDistinctKeys m → In (k, v) m → lookup k m ≡ some v
  unfolding lookup
  lookup_of_In k v [] d i = elim i [ ]
  lookup_of_In k v ((j, w) ∷ m) d (inl h) =
      rw ((e.same_iff j k).1 (ap (λ (x : K × V). x.0) (sym h)))
        (ap (λ (x : K × V). some x.1) (sym h))
  lookup_of_In k v ((j, w) ∷ m) d (inr i) = elim (Bool-cases (j == k)) [
    | inl t ↦ absurd (twice ((e.same_iff j k).0 t) (lookup_of_In k v m d.1 i))
    | inr f ↦ rw f (lookup_of_In k v m d.1 i)
  ]
    where
      twice : j ≡ k → lookup k m ≡ some v → ⊥
      twice same found = cc (sym (subst (λ (x : K). lookup x m ≡ none) same d.0) ∙ found)

  pub In-of_lookup : (k : K) (v : V) (m : List (K × V)) → lookup k m ≡ some v → In (k, v) m
  unfolding lookup
  In-of_lookup k v [] h = absurd (cc)
  In-of_lookup k v ((j, w) ∷ m) h = elim (Bool-cases (j == k)) [
    | inl t ↦
        let at : w ≡ v = some-injective (rw t at h) in
        inl (ap (λ (x : K). (x, v)) (sym ((e.same_iff j k).0 t)) ∙ ap (λ (x : V). (j, x)) (sym at))
    | inr f ↦ inr (In-of_lookup k v m (rw f at h))
  ]
