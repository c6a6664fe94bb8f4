-- ===== src/Billing/Prices/Laws.antt =====
-- The price that is chosen matches, is the most specific one, and the newest among those.
use aether_code.Base.{
  ℕ, ◌≤◌, ◌<◌, List, [], ◌∷◌, Option, none, some, ltb, ok, >>=-eq-ok, In, All, inl, inr, ◌⊎◌, ◌≡◌,
  refl, sym, ap, ◌∙◌, subst, arith, Bool-cases, Option-cases, some-injective, ok-injective,
}
use aether_code.Store.Provider.{Time}
use aether_code.Store.Database.{Database}
use aether_code.Billing.{PriceConfig}
use aether_code.Billing.Prices.{
  PriceResolutionInput, matches, choose, Chosen, selected, normalized_input, IsNotNewer,
  NewestFirst, PriceTable, resolve_price,
}

-- No price of the list has a higher score than this one, and none with the same score is newer.
abbrev pub Beats : PriceResolutionInput → List PriceConfig → PriceConfig → ℕ → Type 0
Beats input ps p score =
    (q : PriceConfig) (other : ℕ)
    → In q ps
    → matches q input ≡ some other
    → (other ≤ score) × (other ≡ score → IsNotNewer q p)

-- The outcome of the loop from a price that is already selected.
abbrev From : PriceResolutionInput → List PriceConfig → PriceConfig → ℕ → Chosen → Type 0
From input ps p score out =
    (q : PriceConfig) × (best : ℕ) × (out ≡ some (q, best))
    × (score ≤ best)
    × (((q ≡ p) × (best ≡ score)) ⊎ (In q ps × (matches q input ≡ some best) × (score < best)))
    × Beats input ps q best

self-IsNotNewer : (p : PriceConfig) → IsNotNewer p p
self-IsNotNewer p = inr (refl, omega arith)

module _ (input : PriceResolutionInput) where
  Beats-cons :
      (p : PriceConfig) (ps : List PriceConfig) (q : PriceConfig) (best : ℕ)
      → ((other : ℕ)
          → matches p input ≡ some other
          → (other ≤ best) × (other ≡ best → IsNotNewer p q))
      → Beats input ps q best
      → Beats input (p ∷ ps) q best
  Beats-cons p ps q best first rest r other (inl e) m =
      let (le, tie) = first other (subst (λ (x : PriceConfig). matches x input ≡ some other) e m) in
      (le, λ same. subst (λ (x : PriceConfig). IsNotNewer x q) (sym e) (tie same))
  Beats-cons p ps q best first rest r other (inr i) m = rest r other i m

  From-choose :
      (ps : List PriceConfig) (p : PriceConfig) (score : ℕ)
      → NewestFirst ps
      → All (λ q. IsNotNewer q p) ps
      → From input ps p score (choose input (some (p, score)) ps)
  unfolding choose
  From-choose [] p score sorted older =
      (p, score, refl, omega arith, inl (refl, refl), λ q other i m. elim i [ ])
  From-choose (x ∷ ps) p score sorted older = elim (Option-cases (matches x input)) [
    | inl none' ↦
        let (q, best, e, le, where', beats) = From-choose ps p score sorted.1 older.1 in
        rw none' (
          q,
          best,
          e,
          le,
          further where',
          Beats-cons x ps q best (λ other m. absurd (nothing other (sym none' ∙ m))) beats,
        )
    | inr (s, found) ↦ elim (Bool-cases (ltb score s)) [
      | inl t ↦
          let (q, best, e, le, where', beats) = From-choose ps x s sorted.1 sorted.0 in
          let more : score < s = ground (arith, t) in
          rw (found, t)
            (
              q,
              best,
              e,
              omega (arith, le, more),
              elim where' [
                | inl (same, equal) ↦ inr (
                  inl same,
                  ap (λ (y : PriceConfig). matches y input) same ∙ found ∙ ap some (sym equal),
                  omega (arith, equal, more),
                )
                | inr (i, m, lt) ↦ inr (inr i, m, omega (arith, lt, more))
              ],
              Beats-cons x ps q best
                  (λ other m.
                    let same : s ≡ other = some-injective (sym found ∙ m) in
                    (
                      omega (arith, same, le),
                      λ tie. elim where' [
                        | inl (is, _) ↦
                            subst (λ (y : PriceConfig). IsNotNewer x y) (sym is) (self-IsNotNewer x)
                        | inr (_, _, lt) ↦ absurd (omega (arith, lt, same, tie))
                      ],
                    ))
                  beats,
            )
      | inr f ↦
          let (q, best, e, le, where', beats) = From-choose ps p score sorted.1 older.1 in
          let less : s ≤ score = ground (arith, f) in
          rw (found, f)
            (
              q,
              best,
              e,
              le,
              further where',
              Beats-cons x ps q best
                  (λ other m.
                    let same : s ≡ other = some-injective (sym found ∙ m) in
                    (
                      omega (arith, same, less, le),
                      λ tie. elim where' [
                        | inl (is, _) ↦ subst (λ (y : PriceConfig). IsNotNewer x y) (sym is) older.0
                        | inr (_, _, lt) ↦ absurd (omega (arith, lt, same, tie, less))
                      ],
                    ))
                  beats,
            )
    ]
  ]
    where
      nothing : (other : ℕ) → none ≡ some other → ⊥
      nothing other e = cc

      further :
          {q : PriceConfig} {best : ℕ}
          → ((q ≡ p) × (best ≡ score)) ⊎ (In q ps × (matches q input ≡ some best) × (score < best))
          → ((q ≡ p) × (best ≡ score))
            ⊎ (In q (x ∷ ps) × (matches q input ≡ some best) × (score < best))
      further (inl h) = inl h
      further (inr (i, m, lt)) = inr (inr i, m, lt)

  -- The outcome of the loop from no price.
  abbrev pub Resolved : List PriceConfig → Option PriceConfig → Type 0
  Resolved ps out =
      ((out ≡ none) × ((q : PriceConfig) → In q ps → matches q input ≡ none))
      ⊎ ((p : PriceConfig) × (score : ℕ) × (out ≡ some p)
          × In p ps
          × (matches p input ≡ some score)
          × Beats input ps p score)

  choose-Resolved :
      (ps : List PriceConfig) → NewestFirst ps → Resolved ps (selected (choose input none ps))
  unfolding choose
  choose-Resolved [] sorted = inl (refl, λ q i. elim i [ ])
  choose-Resolved (x ∷ ps) sorted = elim (Option-cases (matches x input)) [
    | inl none' ↦ rw none' (elim (choose-Resolved ps sorted.1) [
      | inl (e, all_none) ↦ inl (
        e,
        λ q i. elim i [
          | inl here ↦ ap (λ (y : PriceConfig). matches y input) here ∙ none'
          | inr there ↦ all_none q there
        ],
      )
      | inr (p, score, e, i, m, beats) ↦ inr (
        p,
        score,
        e,
        inr i,
        m,
        Beats-cons x ps p score (λ other m'. absurd (nothing other (sym none' ∙ m'))) beats,
      )
    ])
    | inr (s, found) ↦
        let (q, best, e, le, where', beats) = From-choose ps x s sorted.1 sorted.0 in
        rw found (
          inr (
            q,
            best,
            ap selected e,
            elim where' [ inl (same, _) ↦ inl same | inr (i, _, _) ↦ inr i ],
            elim where' [
              | inl (same, equal) ↦
                  ap (λ (y : PriceConfig). matches y input) same ∙ found ∙ ap some (sym equal)
              | inr (_, m, _) ↦ m
            ],
            Beats-cons x ps q best
                (λ other m.
                  let same : s ≡ other = some-injective (sym found ∙ m) in
                  (
                    omega (arith, same, le),
                    λ tie. elim where' [
                      | inl (is, _) ↦
                          subst (λ (y : PriceConfig). IsNotNewer x y) (sym is) (self-IsNotNewer x)
                      | inr (_, _, lt) ↦ absurd (omega (arith, lt, same, tie))
                    ],
                  ))
                beats,
          ))
  ]
    where
      nothing : (other : ℕ) → none ≡ some other → ⊥
      nothing other e = cc

module _ (d : Database) (t : PriceTable d) (now : Time) (raw : PriceResolutionInput) where
  -- The input with its defaults.
  abbrev pub asked_for : PriceResolutionInput
  asked_for = normalized_input now raw

  abbrev pub IsInEffect : d.Db → PriceConfig → Type 0
  IsInEffect db p = In p (t.prices.rows db) × (p.effective_at ≤ asked_for.at)

  -- If no price in effect matches a usage, none is chosen. Otherwise one of those that match is chosen:
  -- no other has a higher score, and none with the same score is newer. The database must have answered
  -- the query.
  pub resolve_price-Resolved :
      (db : d.Db) {out : Option PriceConfig}
      → resolve_price d t now raw db ≡ ok out
      → ((out ≡ none) × ((q : PriceConfig) → IsInEffect db q → matches q asked_for ≡ none))
        ⊎ ((p : PriceConfig) × (score : ℕ) × (out ≡ some p)
            × IsInEffect db p
            × (matches p asked_for ≡ some score)
            × ((q : PriceConfig) (other : ℕ)
                → IsInEffect db q
                → matches q asked_for ≡ some other
                → (other ≤ score) × (other ≡ score → IsNotNewer q p)))
  unfolding resolve_price
  resolve_price-Resolved db h =
      let (ps, found, e) = >>=-eq-ok (t.in_effect asked_for.at db) _ h in
      let at = t.in_effect-In asked_for.at db ps found in
      let out = ok-injective e in
      elim (choose-Resolved asked_for ps (t.in_effect-NewestFirst asked_for.at db ps found)) [
        | inl (nobody, all_none) ↦ inl (sym out ∙ nobody, λ q i. all_none q ((at q).1 i))
        | inr (p, score, chosen, i, m, beats) ↦ inr (
          p,
          score,
          sym out ∙ chosen,
          (at p).0 i,
          m,
          λ q other j m'. beats q other ((at q).1 j) m',
        )
      ]
