-- ===== src/Text/Sort.antt =====
-- The order of Go's strings, `sort.Strings` and `strings.Join`.
use aether_code.Base.{
  Bool, true, false, List, [], ◌∷◌, ◌++◌, Text, codes, if◌then◌else◌, ltb, In, inl, inr, ◌⊎◌, ◌↔◌,
  ◌≡◌, Bool-cases,
}

-- The order of Go's strings, by their bytes.
unfoldable pub text_ltb : Text → Text → Bool
text_ltb s [] = false
text_ltb [] (d ∷ t) = true
text_ltb (c ∷ s) (d ∷ t) =
    let rest = text_ltb s t in if ltb c d then true else if ltb d c then false else rest

-- `sort.Strings`
unfoldable pub put_sorted : Text → List Text → List Text
put_sorted s [] = s ∷ []
put_sorted s (t ∷ ts) = let rest = put_sorted s ts in if text_ltb t s then t ∷ rest else s ∷ t ∷ ts

unfoldable pub sort_texts : List Text → List Text
sort_texts [] = []
sort_texts (s ∷ ts) = put_sorted s (sort_texts ts)

-- `strings.Join(texts, ", ")`
unfoldable pub join : List Text → Text
join [] = []
join (s ∷ []) = s
join (s ∷ t ∷ ts) = s ++ (codes ", " ++ join (t ∷ ts))

In-put_sorted : (m t : Text) (ts : List Text) → In m (put_sorted t ts) ↔ ((m ≡ t) ⊎ In m ts)
unfolding put_sorted
In-put_sorted m t [] = (λ h. h, λ h. h)
In-put_sorted m t (u ∷ ts) = elim (Bool-cases (text_ltb u t)) [
  | inl e ↦
      let rest = In-put_sorted m t ts in
      rw e (
        λ h. elim h [
          | inl x ↦ inr (inl x)
          | inr x ↦ elim (rest.0 x) [ inl y ↦ inl y | inr y ↦ inr (inr y) ]
        ],
        λ h. elim h [
          | inl x ↦ inr (rest.1 (inl x))
          | inr (inl x) ↦ inl x
          | inr (inr x) ↦ inr (rest.1 (inr x))
        ],
      )
  | inr f ↦ rw f (λ h. h, λ h. h)
]

pub In-sort_texts : (m : Text) (ts : List Text) → In m (sort_texts ts) ↔ In m ts
unfolding sort_texts
In-sort_texts m [] = (λ h. h, λ h. h)
In-sort_texts m (t ∷ ts) =
    let at = In-put_sorted m t (sort_texts ts) in
    let rest = In-sort_texts m ts in
    (
      λ h. elim (at.0 h) [ inl x ↦ inl x | inr x ↦ inr (rest.0 x) ],
      λ h. at.1 (elim h [ inl x ↦ inl x | inr x ↦ inr (rest.1 x) ]),
    )
