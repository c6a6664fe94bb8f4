-- ===== src/Store/Cache/Pick/Shares.antt =====
-- `pickWeighted` gives each provider as many of the draws as its weight says.
use aether_code.Base.{
  ℕ, zero, suc, ◌+◌, ◌-◌, ◌<◌, ◌≤◌, true, false, List, [], ◌∷◌, Option, some, ◌==◌, nat_eq, ltb,
  if◌then◌else◌, length, two_64, two_63, ◌≡◌, refl, arith, In, inl, inr, Bool-cases, ap, ◌∙◌,
}
use aether_code.Store.Provider.{Provider}
use aether_code.Store.Cache.Pick.{
  add_int, sub_int, is_negative, provider_at, add_weights, walk, pick_weighted,
}

unfoldable pub sum_weights : List Provider → ℕ
sum_weights [] = 0
sum_weights (p ∷ ps) = p.weight + sum_weights ps

abbrev copies : ℕ → Provider → List Provider → List Provider
copies zero p rest = rest
copies (suc n) p rest = p ∷ copies n p rest

-- Each provider, as often as its weight says.
unfoldable pub shares : List Provider → List Provider
shares [] = []
shares (p ∷ ps) = copies p.weight p (shares ps)

provider_at-copies_lt :
    (w : ℕ) (p : Provider) (rest : List Provider) (n : ℕ)
    → n < w
    → provider_at (copies w p rest) n ≡ some p
provider_at-copies_lt zero p rest n h = elim h [ ]
provider_at-copies_lt (suc w) p rest zero h = refl
provider_at-copies_lt (suc w) p rest (suc n) h = provider_at-copies_lt w p rest n (omega arith)

provider_at-copies_ge :
    (w : ℕ) (p : Provider) (rest : List Provider) (n : ℕ)
    → w ≤ n
    → provider_at (copies w p rest) n ≡ provider_at rest (n - w)
provider_at-copies_ge zero p rest n h = ap (provider_at rest) (omega arith)
provider_at-copies_ge (suc w) p rest zero h = elim h [ ]
provider_at-copies_ge (suc w) p rest (suc n) h =
    provider_at-copies_ge w p rest n (omega arith) ∙ ap (provider_at rest) (omega arith)

add_weights-sum :
    (total : ℕ) (ps : List Provider)
    → total + sum_weights ps < two_64
    → add_weights total ps ≡ total + sum_weights ps
unfolding add_weights sum_weights
add_weights-sum total [] h = omega arith
add_weights-sum total (p ∷ ps) h =
    omega (arith, add_weights-sum (add_int total p.weight) ps (omega arith))

walk-shares :
    (n : ℕ) (last : Provider) (ps : List Provider)
    → n < sum_weights ps
    → sum_weights ps < two_63
    → some (walk n last ps) ≡ provider_at (shares ps) n
unfolding walk shares sum_weights
walk-shares n last [] h k = elim h [ ]
walk-shares n last (p ∷ ps) h k = elim (Bool-cases (ltb n p.weight)) [
  | inl short ↦
      let negative : is_negative (sub_int n p.weight) ≡ true = ground arith in
      rw (negative, provider_at-copies_lt p.weight p (shares ps) n (ground arith)) refl
  | inr enough ↦
      let rest : sub_int n p.weight ≡ n - p.weight = ground arith in
      let positive : is_negative (n - p.weight) ≡ false = ground arith in
      rw (rest, positive, provider_at-copies_ge p.weight p (shares ps) n (ground arith))
        (walk-shares (n - p.weight) p ps (ground arith) (ground arith))
]

-- `rand.Intn(n)` is below `n`.
abbrev pub IsDraw : (ℕ → ℕ) → Type 0
IsDraw intn = (n : ℕ) → 0 < n → intn n < n

abbrev drawn : (ℕ → ℕ) → List Provider → Option Provider
drawn intn ps =
    if sum_weights ps == 0
    then provider_at ps (intn (length ps))
    else provider_at (shares ps) (intn (sum_weights ps))

single-drawn : (intn : ℕ → ℕ) (p : Provider) → IsDraw intn → some p ≡ drawn intn (p ∷ [])
unfolding sum_weights shares
single-drawn intn p draw = elim (Bool-cases (p.weight + 0 == 0)) [
  | inl none' ↦ rw (none', zero_draw) refl
  | inr some' ↦
      let bound : intn (p.weight + 0) < p.weight + 0 = draw (p.weight + 0) (ground arith) in
      rw (some', provider_at-copies_lt p.weight p [] (intn (p.weight + 0)) (omega arith)) refl
]
  where
    zero_draw : intn 1 ≡ 0
    zero_draw = omega (arith, draw 1 (omega arith))

-- A draw below the sum of the weights is spread over the providers by weight: draw `r` picks the
-- provider in whose share `r` falls. Where all weights are 0 it is spread evenly. There must be a
-- provider, the sum must fit an `int`, and a draw below `n` must be below `n`.
pub pick_weighted-drawn :
    (intn : ℕ → ℕ) (p : Provider) (ps : List Provider)
    → sum_weights (p ∷ ps) < two_63
    → IsDraw intn
    → pick_weighted intn (p ∷ ps) ≡ (
        if sum_weights (p ∷ ps) == 0
        then provider_at (p ∷ ps) (intn (length (p ∷ ps)))
        else provider_at (shares (p ∷ ps)) (intn (sum_weights (p ∷ ps))))
unfolding pick_weighted
pick_weighted-drawn intn p [] h draw = single-drawn intn p draw
pick_weighted-drawn intn p (q ∷ ps) h draw =
    let total = sum_weights (p ∷ q ∷ ps) in
    let exact : add_weights 0 (p ∷ q ∷ ps) ≡ total =
      omega (arith, add_weights-sum 0 (p ∷ q ∷ ps) (omega arith)) in
    let fits : is_negative total ≡ false = ground arith in
    rw exact (elim (Bool-cases (total == 0)) [
      | inl none' ↦ rw none' refl
      | inr some' ↦
          rw (some', fits) (walk-shares (intn total) p (p ∷ q ∷ ps) (draw total (ground arith)) h)
    ])

provider_at-In :
    (ps : List Provider) (i : ℕ)
    → i < length ps
    → (p : Provider) × (provider_at ps i ≡ some p) × In p ps
provider_at-In [] i h = elim h [ ]
provider_at-In (p ∷ ps) zero h = (p, refl, inl refl)
provider_at-In (p ∷ ps) (suc i) h =
    let (q, e, at) = provider_at-In ps i (omega arith) in (q, e, inr at)

provider_at-shares :
    (ps : List Provider) (i : ℕ)
    → i < sum_weights ps
    → (p : Provider) × (provider_at (shares ps) i ≡ some p) × In p ps × (0 < p.weight)
unfolding shares sum_weights
provider_at-shares [] i h = elim h [ ]
provider_at-shares (p ∷ ps) i h = elim (Bool-cases (ltb i p.weight)) [
  | inl short ↦
      (p, provider_at-copies_lt p.weight p (shares ps) i (ground arith), inl refl, ground arith)
  | inr enough ↦
      let (q, e, at, positive) = provider_at-shares ps (i - p.weight) (ground arith) in
      (q, provider_at-copies_ge p.weight p (shares ps) i (ground arith) ∙ e, inr at, positive)
]

-- So one of the given providers is picked, and if any weight is positive, one with a positive weight.
pub pick_weighted-In :
    (intn : ℕ → ℕ) (p : Provider) (ps : List Provider)
    → sum_weights (p ∷ ps) < two_63
    → IsDraw intn
    → (q : Provider) × (pick_weighted intn (p ∷ ps) ≡ some q)
      × In q (p ∷ ps)
      × (0 < sum_weights (p ∷ ps) → 0 < q.weight)
pick_weighted-In intn p ps h draw =
    let all = p ∷ ps in
    elim (Bool-cases (sum_weights all == 0)) [
      | inl none' ↦
          let (q, e, at) =
            provider_at-In all (intn (length all)) (draw (length all) (omega arith)) in
          (
            q,
            rw (pick_weighted-drawn intn p ps h draw, none') e,
            at,
            λ positive. absurd (ground arith),
          )
      | inr some' ↦
          let (q, e, at, positive) =
            provider_at-shares all (intn (sum_weights all))
              (draw (sum_weights all) (ground arith)) in
          (q, rw (pick_weighted-drawn intn p ps h draw, some') e, at, λ _. positive)
    ]
