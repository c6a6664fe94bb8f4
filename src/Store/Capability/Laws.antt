-- ===== src/Store/Capability/Laws.antt =====
-- What normalised capability lists and comma-separated lists hold.
use aether_code.Base.{
  Bool, true, false, ◌||◌, List, [], ◌∷◌, Text, text_beq_iff, ◌==◌, text_eq, nat_eq, Bool-cases,
  ==_ne, inl, inr, ◌⊎◌, ◌↔◌, ◌≢◌, ◌≡◌, refl, sym, ap, ◌∙◌, subst, arith, All, In,
}
use aether_code.Text.{trim_space}
use aether_code.Text.Trim.{trim_space_idem, to_lower_idem, trim_space-to_lower}
use aether_code.Store.Capability.{
  normalize_endpoint_capability, seen_in, normalize_unseen, normalize_endpoint_capabilities,
}

pub normalize_endpoint_capability_idem :
    (v : Text)
    → normalize_endpoint_capability (normalize_endpoint_capability v)
      ≡ normalize_endpoint_capability v
unfolding normalize_endpoint_capability
normalize_endpoint_capability_idem v =
    rw (trim_space-to_lower (trim_space v), trim_space_idem v) (to_lower_idem (trim_space v))

-- A name in normal form, and not empty.
abbrev pub IsNormal : Text → Type 0
IsNormal c = (c ≢ []) × (normalize_endpoint_capability c ≡ c)

pub seen_in_iff : (seen : List Text) (s : Text) → (seen_in seen s ≡ true) ↔ In s seen
seen_in_iff [] s = (λ h. cc, λ h. elim h [ ])
seen_in_iff (t ∷ seen) s = (
  ground (arith, text_beq_iff t s, seen_in_iff seen s),
  ground (arith, text_beq_iff t s, seen_in_iff seen s),
)

or_false : (a b : Bool) → (a || b) ≡ false → (a ≡ false) × (b ≡ false)
or_false a b h = ground arith

not-In : (seen : List Text) (s : Text) → seen_in seen s ≡ false → ¬ In s seen
not-In seen s h i = absurd_test (h) ((seen_in_iff seen s).1 i)
  where
    absurd_test : {b : Bool} → b ≡ false → b ≡ true → ⊥
    absurd_test f t = cc

seen_in_of_not-In : (seen : List Text) (s : Text) → ¬ In s seen → seen_in seen s ≡ false
seen_in_of_not-In seen s h = elim (Bool-cases (seen_in seen s)) [
  | inl t ↦ absurd (h ((seen_in_iff seen s).0 t))
  | inr f ↦ f
]

ne_nil : (s : Text) → (s == []) ≡ false → s ≢ []
ne_nil s h e = cc ((text_beq_iff s []).1 e)

-- No entry stands twice, and none is in `seen`.
abbrev pub Fresh : List Text → List Text → Type 0
Fresh seen [] = Unit {0}
Fresh seen (c ∷ cs) = ¬ In c seen × Fresh (c ∷ seen) cs

abbrev pub IsDistinct : List Text → Type 0
IsDistinct = Fresh []

normalize_unseen_sound :
    (seen values : List Text)
    → All IsNormal (normalize_unseen seen values) × Fresh seen (normalize_unseen seen values)
unfolding normalize_unseen
normalize_unseen_sound seen [] = (tt, tt)
normalize_unseen_sound seen (v ∷ vs) =
    let n = normalize_endpoint_capability v in
    elim (Bool-cases (n == [] || seen_in seen n)) [
      | inl skip ↦ rw skip (normalize_unseen_sound seen vs)
      | inr new ↦
          let (nonempty, unseen) = or_false (n == []) (seen_in seen n) new in
          let (normal, fresh) = normalize_unseen_sound (n ∷ seen) vs in
          rw new (
            ((ne_nil n nonempty, normalize_endpoint_capability_idem v), normal),
            (not-In seen n unseen, fresh),
          )
    ]

differ : (s t : Text) → (s == t) ≡ false → s ≢ t
differ s t h e = cc ((text_beq_iff s t).1 e)

not-In-cons : (t : Text) (seen : List Text) (s : Text) → s ≢ t → ¬ In s seen → ¬ In s (t ∷ seen)
not-In-cons t seen s h k (inl e) = h e
not-In-cons t seen s h k (inr i) = k i

unfold_head : (c n : Text) (cs : List Text) → In c (n ∷ cs) → (c ≡ n) ⊎ In c cs
unfold_head c n cs i = i

-- A normal name is kept exactly if some value has it as its normal form and `seen` lacks it.
normalize_unseen-In :
    (seen values : List Text) (v : Text)
    → In v values
    → normalize_endpoint_capability v ≢ []
    → ¬ In (normalize_endpoint_capability v) seen
    → In (normalize_endpoint_capability v) (normalize_unseen seen values)
unfolding normalize_unseen
normalize_unseen-In seen [] v i nonempty unseen = elim i [ ]
normalize_unseen-In seen (w ∷ ws) v (inl e) nonempty unseen =
    let skips : (normalize_endpoint_capability w == []) ≡ false =
      ==_ne _ [] (λ q. nonempty (ap normalize_endpoint_capability e ∙ q)) in
    let new : seen_in seen (normalize_endpoint_capability w) ≡ false =
      seen_in_of_not-In seen _
        (λ q. unseen (subst (λ (x : Text). In (normalize_endpoint_capability x) seen) (sym e) q)) in
    rw (skips, new) (inl (ap normalize_endpoint_capability e))
normalize_unseen-In seen (w ∷ ws) v (inr i) nonempty unseen =
    let n = normalize_endpoint_capability w in
    let c = normalize_endpoint_capability v in
    elim (Bool-cases (n == [] || seen_in seen n)) [
      | inl skip ↦ rw skip (normalize_unseen-In seen ws v i nonempty unseen)
      | inr new ↦ rw new (elim (Bool-cases (c == n)) [
        | inl same ↦ inl ((text_beq_iff c n).0 same)
        | inr other ↦ inr (
            normalize_unseen-In (n ∷ seen) ws v i nonempty
              (not-In-cons n seen c (differ c n other) unseen))
      ])
    ]

In-normalize_unseen :
    (seen values : List Text) (c : Text)
    → In c (normalize_unseen seen values)
    → (v : Text) × In v values × (c ≡ normalize_endpoint_capability v)
unfolding normalize_unseen
In-normalize_unseen seen [] c i = elim i [ ]
In-normalize_unseen seen (w ∷ ws) c i =
    let n = normalize_endpoint_capability w in
    elim (Bool-cases (n == [] || seen_in seen n)) [
      | inl skip ↦
          let (v, at, e) = In-normalize_unseen seen ws c (rw (skip, normalize_unseen) at i) in
          (v, inr at, e)
      | inr new ↦
          elim (unfold_head c n (normalize_unseen (n ∷ seen) ws)
            (rw (new, normalize_unseen) at i)) [
              | inl e ↦ (w, inl refl, e)
              | inr j ↦ let (v, at, e) = In-normalize_unseen (n ∷ seen) ws c j in (v, inr at, e)
            ]
    ]

-- A list that is normal already passes through.
normalize_unseen_of_IsNormal :
    (seen cs : List Text) → All IsNormal cs → Fresh seen cs → normalize_unseen seen cs ≡ cs
unfolding normalize_unseen
normalize_unseen_of_IsNormal seen [] h f = refl
normalize_unseen_of_IsNormal seen (c ∷ cs) h f =
    rw (h.0.1, ==_ne c [] h.0.0, seen_in_of_not-In seen c f.0)
      (ap (◌∷◌ c) (normalize_unseen_of_IsNormal (c ∷ seen) cs h.1 f.1))

-- Normalising a capability list gives non-empty names in normal form, each once; normalising again
-- changes nothing.
pub normalize_endpoint_capabilities_lem :
    (values : List Text)
    → let out = normalize_endpoint_capabilities values in
      All IsNormal out × IsDistinct out × (normalize_endpoint_capabilities out ≡ out)
unfolding normalize_endpoint_capabilities
normalize_endpoint_capabilities_lem values =
    let (normal, distinct) = normalize_unseen_sound [] values in
    (normal, distinct, normalize_unseen_of_IsNormal [] (normalize_unseen [] values) normal distinct)

-- A non-empty name is in the normalised list exactly if it is the normal form of a listed value.
pub In-normalize_endpoint_capabilities :
    (values : List Text) (c : Text)
    → c ≢ []
    → In c (normalize_endpoint_capabilities values)
      ↔ ((v : Text) × In v values × (c ≡ normalize_endpoint_capability v))
unfolding normalize_endpoint_capabilities
In-normalize_endpoint_capabilities values c h = (
  In-normalize_unseen [] values c,
  λ (found : (v : Text) × In v values × (c ≡ normalize_endpoint_capability v)).
      subst (λ (x : Text). In x (normalize_unseen [] values)) (sym found.2)
        (normalize_unseen-In [] values found.0 found.1 (λ e. h (found.2 ∙ e)) (λ e. e)),
)
