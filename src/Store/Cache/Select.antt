-- ===== src/Store/Cache/Select.antt =====
-- What `SelectForCapability` returns, for any cache whose id lists are in order of priority.
pub mod Rows
pub mod Fresh
use aether_code.Base.{
  ℕ, ◌+◌, ◌<◌, ◌≤◌, Bool, true, false, ◌&&◌, List, [], ◌∷◌, Option, none, some, some-injective,
  Text, codes, ◌==◌, text_eq, int_eq, nat_eq, ℤ, ◌≤ℤ◌, if◌then◌else◌, All, In, Bool-cases,
  Option-cases, inl, inr, ◌⊎◌, ◌↔◌, ◌≡◌, ◌≢◌, refl, sym, ap, subst, arith, lookup, int_beq_iff,
  length, text_beq_iff, Result, ok, err, ◌∙◌, two_63, keep, any, All-In, In-All, ==_refl, ==_ne,
  In-keep,
}
use aether_code.Text.{trim_space, or_else}
use aether_code.Store.Capability.{normalize_endpoint_capability}
use aether_code.Store.Provider.{Provider, supports_capability, status_enabled}
use aether_code.Store.Cache.Pick.{pick_weighted}
use aether_code.Store.Cache.Pick.Shares.{sum_weights, IsDraw, pick_weighted-In}
use aether_code.Store.Cache.Order.{Descends, priority_of}
use aether_code.Store.Cache.{
  Cache, SelectError, model_required, no_provider, no_remaining, no_remaining_for, is_excluded,
  is_enabled, admit, candidates, top_of, picked, returned, select_for_capability, ids_for, row_of,
  zero_provider,
}
use aether_code.Store.Cache.Candidates.{InOrder, candidates-InOrder}

sum_weights-keep :
    (t : Provider → Bool) (ps : List Provider) → sum_weights (keep t ps) ≤ sum_weights ps
unfolding keep sum_weights
sum_weights-keep t [] = omega arith
sum_weights-keep t (p ∷ ps) = ground (arith, sum_weights-keep t ps)

-- The providers of the top priority: the first one is among them, and all have its priority.
top_of-cons :
    (p : Provider) (ps : List Provider)
    → top_of (p ∷ ps) ≡ p ∷ keep (λ q. q.priority == p.priority) ps
unfolding top_of keep
top_of-cons p ps = rw (==_refl p.priority) refl

-- The outcomes of a selection among the candidates.
abbrev pub Chosen : (Option (Result SelectError Provider)) → List Provider → Type 0
Chosen outcome ps =
    (q : Provider) × (outcome ≡ some (ok q))
    × In q ps
    × All (λ r. r.priority ≤ℤ q.priority) ps
    × (0 < sum_weights (top_of ps) → 0 < q.weight)

keep-priority :
    (p q : Provider) (ps : List Provider)
    → (q ≡ p) ⊎ In q (keep (λ r. r.priority == p.priority) ps)
    → In q (p ∷ ps) × (q.priority ≡ p.priority)
keep-priority p q ps (inl e) = (inl e, ap (λ (r : Provider). r.priority) e)
keep-priority p q ps (inr h) =
    let (at, same) = In-keep (λ r. r.priority == p.priority) q ps h in
    (inr at, (int_beq_iff q.priority p.priority).0 same)

le_self : (k : ℤ) → k ≤ℤ k
le_self k = omega arith

picked-Chosen :
    (intn : ℕ → ℕ) (model capability : Text) (p : Provider) (ps : List Provider)
    → InOrder (p ∷ ps)
    → sum_weights (p ∷ ps) < two_63
    → IsDraw intn
    → Chosen (picked intn model capability (p ∷ ps)) (p ∷ ps)
picked-Chosen intn model capability p ps order fits draw =
    let same = λ (r : Provider). r.priority == p.priority in
    let bound : sum_weights (p ∷ keep same ps) < two_63 =
      unfold sum_weights in omega (arith, sum_weights-keep same ps) in
    let (q, e, at, heavy) = pick_weighted-In intn p (keep same ps) bound draw in
    let (member, equal) = keep-priority p q ps at in
    (
      q,
      ap (λ (ps' : List Provider). returned (pick_weighted intn ps')) (top_of-cons p ps)
          ∙ ap returned e,
      member,
      subst (λ (k : ℤ). All (λ r. r.priority ≤ℤ k) (p ∷ ps)) (sym equal)
          (le_self p.priority, order.0),
      rw (top_of-cons p ps) heavy,
    )

-- The error when no candidate is left, and the result when there is one.
picked_cases :
    (intn : ℕ → ℕ) (model capability : Text) (ps : List Provider)
    → InOrder ps
    → sum_weights ps < two_63
    → IsDraw intn
    → ((ps ≡ [])
        × (picked intn model capability ps
            ≡ some (
                err (
                  if capability == []
                  then no_remaining model
                  else no_remaining_for model capability))))
      ⊎ Chosen (picked intn model capability ps) ps
picked_cases intn model capability [] order fits draw = inl (refl, ground arith)
picked_cases intn model capability (p ∷ ps) order fits draw =
    inr (picked-Chosen intn model capability p ps order fits draw)

module _ (intn : ℕ → ℕ) (draw : IsDraw intn) (c : Cache) (raw_model raw_capability : Text)
    (excluded : List ℕ) where
  abbrev outcome : Option (Result SelectError Provider)
  outcome = select_for_capability intn c raw_model raw_capability excluded

  abbrev model : Text
  model = trim_space raw_model

  abbrev capability : Text
  capability = normalize_endpoint_capability raw_capability

  abbrev ids : List ℕ
  ids = ids_for c model

  abbrev left : List Provider
  left = candidates c capability excluded ids

  -- A selection for a blank model fails. Otherwise it fails with the model's name if no id stands under
  -- the model or the wildcard, fails likewise if no id is left that is enabled, supports the capability
  -- and is not excluded, and in every other case returns one of those left, of the highest priority among
  -- them, with a positive weight if any of that priority has one.
  pub select_for_capability_cases :
      Descends c.by_id ids
      → sum_weights left < two_63
      → ((model ≡ []) × (outcome ≡ some (err model_required)))
        ⊎ ((model ≢ []) × (ids ≡ []) × (outcome ≡ some (err (no_provider model))))
        ⊎ ((model ≢ [])
            × (left ≡ [])
            × (outcome
                ≡ some (
                    err (
                      if capability == []
                      then no_remaining model
                      else no_remaining_for model capability))))
        ⊎ ((model ≢ []) × Chosen outcome left)
  unfolding select_for_capability
  select_for_capability_cases order fits = elim (Bool-cases (model == [])) [
    | inl t ↦ inl ((text_beq_iff model []).0 t, rw t refl)
    | inr f ↦
        let named : model ≢ [] = λ e. cc (f, (text_beq_iff model []).1 e) in
        inr (elim (Bool-cases (length ids == 0)) [
          | inl t ↦ inl (named, empty_of_length ids t, rw (f, t) refl)
          | inr g ↦ inr (
              rw (f, g)
                (elim (picked_cases intn model capability left
                  (candidates-InOrder c capability excluded ids order) fits draw) [
                    | inl e ↦ inl (named, e.0, e.1)
                    | inr h ↦ inr (named, h)
                  ]))
        ])
  ]
    where
      empty_of_length : (xs : List ℕ) → (length xs == 0) ≡ true → xs ≡ []
      empty_of_length [] h = refl
      empty_of_length (x ∷ xs) h = absurd (ground arith)
