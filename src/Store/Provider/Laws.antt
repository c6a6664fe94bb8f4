-- ===== src/Store/Provider/Laws.antt =====
-- Defaults of a provider row, its model list and its keys.
use aether_code.Base.{
  ℕ, Bool, true, not, List, [], ◌∷◌, Text, text_beq, text_beq_iff, ◌==◌, text_eq, nat_eq, int_eq,
  Bool-cases, ==_ne, inl, inr, ◌⊎◌, ◌↔◌, ◌≢◌, ◌≡◌, refl, ap, arith, any, All, In, keep, subst,
}
use aether_code.Text.{trim_space, trim, is_empty, is_space}
use aether_code.Text.Split.{
  Lacks, split_by-Lacks, drop_left-Lacks, drop_right-Lacks, trim_of_Lacks, split_by_of_Lacks,
}
use aether_code.Text.Trim.{trim_space_idem}
use aether_code.Store.Capability.{
  normalize_endpoint_capability, normalize_endpoint_capabilities, default_endpoint_capabilities,
  default-IsNormalized, compact_strings, split_csv,
}
use aether_code.Store.Capability.Laws.{normalize_endpoint_capabilities_lem, IsNormal}
use aether_code.Store.Provider.{
  Provider, apply_defaults, or_default_capabilities, model_list, normalized_endpoint_capabilities,
  supports_capability,
}

-- A public model id: not empty, trimmed, and free of commas.
abbrev pub IsModelId : Text → Type 0
IsModelId m = (m ≢ []) × (trim_space m ≡ m) × Lacks (λ c. c == b',') m

ne_nil_of_test : (s : Text) → not (is_empty s) ≡ true → s ≢ []
ne_nil_of_test [] h e = cc
ne_nil_of_test (c ∷ s) h e = cc

trim_space-Lacks : (p : ℕ → Bool) (s : Text) → Lacks p s → Lacks p (trim_space s)
unfolding trim_space
trim_space-Lacks p s h = drop_right-Lacks p is_space _ (drop_left-Lacks p is_space s h)

compact_strings-IsModelId :
    (parts : List Text) → All (Lacks (λ c. c == b',')) parts → All IsModelId (compact_strings parts)
unfolding compact_strings keep
compact_strings-IsModelId [] h = tt
compact_strings-IsModelId (part ∷ parts) h = elim (Bool-cases (not (is_empty (trim_space part)))) [
  | inl t ↦ rw t (
    (ne_nil_of_test _ t, trim_space_idem part, trim_space-Lacks _ part h.0),
    compact_strings-IsModelId parts h.1,
  )
  | inr f ↦ rw f (compact_strings-IsModelId parts h.1)
]

-- Every entry of a provider's model list is a model id: not empty, trimmed, with no comma.
pub model_list-IsModelId : (p : Provider) → All IsModelId (model_list p)
unfolding model_list split_csv text_beq
model_list-IsModelId p = elim (Bool-cases (trim (trim_space p.models) b',' == [])) [
  | inl t ↦ rw t tt
  | inr f ↦ rw f (compact_strings-IsModelId _ (split_by-Lacks (λ c. c == b',') _))
]

one_kept : (m : Text) → m ≢ [] → keep (λ part. not (is_empty part)) (m ∷ []) ≡ m ∷ []
unfolding keep
one_kept [] h = absurd (h refl)
one_kept (c ∷ m) h = refl

-- A text that is one model id is a list of that one model.
pub split_csv-IsModelId : (m : Text) → IsModelId m → split_csv m [] ≡ m ∷ []
unfolding split_csv compact_strings text_beq keep
split_csv-IsModelId m (nonempty, clean, no_comma) =
    rw (clean, trim_of_Lacks b',' m no_comma, ==_ne m [] nonempty, split_by_of_Lacks _ m no_comma)
      (rw clean (one_kept m nonempty))

-- The capabilities of a row, normalised or the default ones, are normalised already.
or_default-normalized :
    (cs : List Text)
    → normalize_endpoint_capabilities cs ≡ cs
    → or_default_capabilities (normalize_endpoint_capabilities (or_default_capabilities cs))
      ≡ or_default_capabilities cs
unfolding default_endpoint_capabilities
or_default-normalized [] h = ap or_default_capabilities default-IsNormalized
or_default-normalized (c ∷ cs) h = rw h refl

pub normalized_endpoint_capabilities-apply_defaults :
    (p : Provider)
    → normalized_endpoint_capabilities (apply_defaults p) ≡ normalized_endpoint_capabilities p
unfolding normalized_endpoint_capabilities apply_defaults
normalized_endpoint_capabilities-apply_defaults p =
    or_default-normalized _ ((normalize_endpoint_capabilities_lem p.endpoint_capabilities).2)

any_iff : (cs : List Text) (w : Text) → (any (λ c. c == w) cs ≡ true) ↔ In w cs
any_iff [] w = (λ h. cc, λ h. elim h [ ])
any_iff (c ∷ cs) w =
    (ground (arith, text_beq_iff c w, any_iff cs w), ground (arith, text_beq_iff c w, any_iff cs w))

-- Applying the defaults to a row does not change what it supports.
pub supports_capability-apply_defaults :
    (p : Provider) (capability : Text)
    → supports_capability (apply_defaults p) capability ≡ supports_capability p capability
unfolding supports_capability
supports_capability-apply_defaults p capability =
    rw (normalized_endpoint_capabilities-apply_defaults p) refl

-- A blank capability is supported by every provider. Any other is supported exactly if its normal form
-- is among the provider's normalised capabilities, which are the default ones where it lists none.
pub supports_capability_iff :
    (p : Provider) (capability : Text)
    → (supports_capability p capability ≡ true) ↔ (
        (normalize_endpoint_capability capability ≡ [])
        ⊎ In (normalize_endpoint_capability capability) (normalized_endpoint_capabilities p))
unfolding supports_capability
supports_capability_iff p capability =
    let wanted = normalize_endpoint_capability capability in
    (
      ground (arith, text_beq_iff wanted [], any_iff (normalized_endpoint_capabilities p) wanted),
      ground (arith, text_beq_iff wanted [], any_iff (normalized_endpoint_capabilities p) wanted),
    )

or_default-IsNormal : (cs : List Text) → All IsNormal cs → All IsNormal (or_default_capabilities cs)
or_default-IsNormal [] h =
    subst (λ (cs : List Text). All IsNormal cs) default-IsNormalized
      ((normalize_endpoint_capabilities_lem default_endpoint_capabilities).0)
or_default-IsNormal (c ∷ cs) h = h

-- Every capability of a row is a name in normal form.
pub normalized_endpoint_capabilities-IsNormal :
    (p : Provider) → All IsNormal (normalized_endpoint_capabilities p)
unfolding normalized_endpoint_capabilities
normalized_endpoint_capabilities-IsNormal p =
    or_default-IsNormal _ ((normalize_endpoint_capabilities_lem p.endpoint_capabilities).0)
