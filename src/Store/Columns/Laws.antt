-- ===== src/Store/Columns/Laws.antt =====
-- A column that is written and read back.
use aether_code.Base.{
  All, ◌++◌, nat_eq, lookup, HasDistinctKeys, List, [], ◌∷◌, none, some, Bool, true, false, Text,
  codes, ◌==◌, text_eq, text_beq, ==_ne, Result, ok, ok-injective, ◌≡◌, ◌≢◌, refl, sym, ap, ◌∙◌,
  subst,
}
use aether_code.Text.Split.{Lacks, split_by_of_Lacks, split_by-append}
use aether_code.Text.{split, split_by, trim_space, has_prefix, strip_prefix, drop_left, drop_right}
use aether_code.Store.Capability.{normalize_endpoint_capabilities}
use aether_code.Store.Capability.Laws.{normalize_endpoint_capabilities_lem}
use aether_code.Store.Provider.{StringMap, entries, Provider, upstream_model}
use aether_code.Store.Columns.{
  Column, bytes, string, ColumnJson, map_value, map_entries, scan_map, list_value, scan_list,
  scan_list_text, scan_map_text,
}

-- The same values under the same keys.
abbrev pub SameMap : List (Text × Text) → List (Text × Text) → Type 0
SameMap es fs = (k : Text) → lookup k es ≡ lookup k fs

-- Every key and every value is valid.
abbrev pub IsValidMap : (Text → Bool) → List (Text × Text) → Type 0
IsValidMap valid es = All (λ e. (valid e.0 ≡ true) × (valid e.1 ≡ true)) es

-- What the columns rely on of `encoding/json`, with `utf8.ValidString` for `valid`: valid strings are read as
-- they were written, a list is written in brackets, and a map, whose keys are written in order, is read
-- with the same values under the same keys and is not written as white space.
pub record IsColumnJson (json : ColumnJson) (valid : Text → Bool) : Type 0 where
  pub list_back :
      (vs : List Text) (t : Text)
      → All (λ v. valid v ≡ true) vs
      → json.marshal_list vs ≡ ok t
      → (json.unmarshal_list t ≡ ok vs) × (has_prefix (trim_space t) (codes "[") ≡ true)
  pub empty_list_back : json.unmarshal_list (codes "[]") ≡ ok []
  pub map_back :
      (es : List (Text × Text)) (t : Text)
      → HasDistinctKeys es
      → IsValidMap valid es
      → json.marshal_map es ≡ ok t
      → (fs : List (Text × Text)) × (json.unmarshal_map t ≡ ok (some fs))
        × SameMap fs es
        × (trim_space t ≢ [])
  pub empty_map_back : json.unmarshal_map (codes "{}") ≡ ok (some [])

-- The elements behind each other, with commas between them: how a list was stored before.
unfoldable pub commas : List Text → Text
commas [] = []
commas (v ∷ []) = v
commas (v ∷ w ∷ vs) = v ++ b',' ∷ commas (w ∷ vs)

abbrev pub HasNoComma : Text → Type 0
HasNoComma v = Lacks (λ c. c == b',') v

split_by-separator :
    (rest : Text) (parts : List Text)
    → split rest b',' ≡ parts
    → split (b',' ∷ rest) b',' ≡ [] ∷ parts
unfolding split_by
split_by-separator rest parts h = ap (λ (ps : List Text). [] ∷ ps) h

split-commas :
    (v : Text) (vs : List Text) → All HasNoComma (v ∷ vs) → split (commas (v ∷ vs)) b',' ≡ v ∷ vs
unfolding commas
split-commas v [] h = split_by_of_Lacks (λ c. c == b',') v h.0
split-commas v (w ∷ vs) h =
    split_by-append (λ c. c == b',') v (b',' ∷ commas (w ∷ vs)) (w ∷ vs) h.0
      (split_by-separator (commas (w ∷ vs)) (w ∷ vs) (split-commas w vs h.1))

no_prefix : (has_prefix [] (codes "[")) ≡ false
unfolding strip_prefix
no_prefix = refl

not_blank : (t : Text) → has_prefix t (codes "[") ≡ true → t ≢ []
not_blank t h e =
    clash (sym (subst (λ (x : Text). has_prefix x (codes "[") ≡ true) e h) ∙ no_prefix)
  where
    clash : ◌≡◌ {A = Bool} true false → ⊥
    clash k = cc

empty_list_text :
    ((trim_space (codes "[]") == []) ≡ false)
    × (has_prefix (trim_space (codes "[]")) (codes "[") ≡ true)
unfolding trim_space drop_left drop_right text_beq strip_prefix
empty_list_text = (refl, refl)

empty_map_text : (trim_space (codes "{}") == []) ≡ false
unfolding trim_space drop_left drop_right text_beq
empty_map_text = refl

module _ (json : ColumnJson) (valid : Text → Bool) (lawful : IsColumnJson json valid) where
  scan_list_text-value :
      (vs : List Text) (t : Text)
      → All (λ v. valid v ≡ true) vs
      → list_value json vs ≡ ok t
      → scan_list_text json t ≡ ok (normalize_endpoint_capabilities vs)
  unfolding list_value
  scan_list_text-value [] t good h =
      subst (λ (x : Text). scan_list_text json x ≡ ok (normalize_endpoint_capabilities []))
        (ok-injective h) (rw (empty_list_text.0, empty_list_text.1, lawful.empty_list_back) refl)
  scan_list_text-value (v ∷ vs) t good h =
      let (back, bracket) = lawful.list_back (v ∷ vs) t good h in
      rw (==_ne (trim_space t) [] (not_blank (trim_space t) bracket), bracket, back) refl

  scan_list_text-commas :
      (v : Text) (vs : List Text)
      → All HasNoComma (v ∷ vs)
      → trim_space (commas (v ∷ vs)) ≢ []
      → has_prefix (trim_space (commas (v ∷ vs))) (codes "[") ≡ false
      → scan_list_text json (commas (v ∷ vs)) ≡ ok (normalize_endpoint_capabilities (v ∷ vs))
  scan_list_text-commas v vs parts filled bare =
      rw (==_ne (trim_space (commas (v ∷ vs))) [] filled, bare, split-commas v vs parts) refl

  scan_map_text-entries :
      (es : List (Text × Text)) (t : Text)
      → HasDistinctKeys es
      → IsValidMap valid es
      → map_entries json es ≡ ok t
      → (fs : List (Text × Text)) × (scan_map_text json t ≡ ok (some fs)) × SameMap fs es
  scan_map_text-entries [] t distinct good h = (
    [],
    subst (λ (x : Text). scan_map_text json x ≡ ok (some [])) (ok-injective h)
        (rw (empty_map_text, lawful.empty_map_back) refl),
    λ k. refl,
  )
  scan_map_text-entries (e ∷ es) t distinct good h =
      let (fs, back, same, filled) = lawful.map_back (e ∷ es) t distinct good h in
      (fs, rw (==_ne (trim_space t) [] filled, back) refl, same)

  scan_map_text-value :
      (m : StringMap) (t : Text)
      → HasDistinctKeys (entries m)
      → IsValidMap valid (entries m)
      → map_value json m ≡ ok t
      → (fs : List (Text × Text)) × (scan_map_text json t ≡ ok (some fs)) × SameMap fs (entries m)
  unfolding map_value
  scan_map_text-value none t distinct good h = scan_map_text-entries [] t distinct good h
  scan_map_text-value (some es) t distinct good h = scan_map_text-entries es t distinct good h

  -- What is read back of a column, as bytes and as a string.
  abbrev pub ReadsBack : {A : Type 0} → (Column → Result Text A) → Text → A → Type 0
  ReadsBack scan t a = (scan (bytes t) ≡ ok a) × (scan (string t) ≡ ok a)

  -- A capability list that is stored comes back normalised, which changes nothing where it was stored in
  -- normal form. So does a list of an older column, whose elements stand between commas, as long as it is
  -- not blank and does not begin with a bracket. A map comes back with the same values under the same keys,
  -- with the empty map for nil, so that a provider maps its models as before. The strings are valid UTF-8,
  -- the map has each key once, and the JSON codec reads valid strings as it writes them.
  pub scan-value :
      (vs : List Text) (m : StringMap) (t u old : Text) (olds : List Text)
      → All (λ v. valid v ≡ true) vs
      → HasDistinctKeys (entries m)
      → IsValidMap valid (entries m)
      → list_value json vs ≡ ok t
      → map_value json m ≡ ok u
      → All HasNoComma (old ∷ olds)
      → trim_space (commas (old ∷ olds)) ≢ []
      → has_prefix (trim_space (commas (old ∷ olds))) (codes "[") ≡ false
      → ReadsBack (scan_list json) t (normalize_endpoint_capabilities vs)
        × ((ws : List Text)
            → vs ≡ normalize_endpoint_capabilities ws
            → ReadsBack (scan_list json) t vs)
        × ReadsBack
            (scan_list json)
            (commas (old ∷ olds))
            (normalize_endpoint_capabilities (old ∷ olds))
        × ((fs : List (Text × Text)) × ReadsBack (scan_map json) u (some fs)
            × SameMap fs (entries m)
            × ((p : Provider) (model : Text)
                → upstream_model (record p { model_mapping = some fs }) model
                  ≡ upstream_model (record p { model_mapping = m }) model))
  unfolding scan_list scan_map upstream_model
  scan-value vs m t u old olds good distinct valid_map stored stored' parts filled bare =
      let back = scan_list_text-value vs t good stored in
      let older = scan_list_text-commas old olds parts filled bare in
      let (fs, back', same) = scan_map_text-value m u distinct valid_map stored' in
      (
        (back, back),
        λ ws e.
            let kept : normalize_endpoint_capabilities vs ≡ vs =
              ap normalize_endpoint_capabilities e
              ∙ (normalize_endpoint_capabilities_lem ws).2
              ∙ sym e in
            (back ∙ ap ok kept, back ∙ ap ok kept),
        (older, older),
        (fs, (back', back'), same, λ p model. rw (same model) refl),
      )
