-- ===== src/Store/Tests/Columns.antt =====
-- The theorem about the text columns at concrete values, with a codec that reads what it writes.
use aether_code.Base.{
  ℕ, All, HasDistinctKeys, Bool, true, false, List, [], ◌∷◌, some, Text, codes, text_eq, text_beq,
  ok, ok-injective, length, lookup, nat_eq, ◌≡◌, ◌≢◌, refl, sym, ap, ◌∙◌, subst,
}
use aether_code.Text.{trim_space, has_prefix, strip_prefix, drop_left, drop_right, is_space}
use aether_code.Text.Split.{put_left_of}
use aether_code.Text.Frame.{frame, unframe, unframe-frame, flat, pairs, lookup-pairs}
use aether_code.Store.Capability.{normalize_endpoint_capabilities}
use aether_code.Store.Provider.{Provider, upstream_model}
use aether_code.Store.Columns.{ColumnJson, map_value, list_value, scan_map, scan_list}
use aether_code.Store.Columns.Laws.{
  IsColumnJson, IsValidMap, SameMap, ReadsBack, commas, scan-value,
}

abbrev behind : Text → Text
behind [] = []
behind (c ∷ s) = s

abbrev json : ColumnJson
json = record {
  marshal_map = λ es. ok (b'{' ∷ frame (flat es));
  unmarshal_map = λ t. ok (some (pairs (unframe (length (behind t)) (behind t))));
  marshal_list = λ vs. ok (b'[' ∷ frame vs);
  unmarshal_list = λ t. ok (unframe (length (behind t)) (behind t));
}

abbrev valid : Text → Bool
valid t = true

trim_space-cons :
    (c : ℕ) (s : Text) → is_space c ≡ false → trim_space (c ∷ s) ≡ c ∷ drop_right is_space s
unfolding trim_space drop_left drop_right
trim_space-cons c s h = rw h (put_left_of is_space c (drop_right is_space s) h)

in_brackets : (s : Text) → has_prefix (trim_space (b'[' ∷ s)) (codes "[") ≡ true
unfolding strip_prefix
in_brackets s = rw (trim_space-cons b'[' s refl) refl

not_blank : (s : Text) → trim_space (b'{' ∷ s) ≢ []
not_blank s e = cc (sym (trim_space-cons b'{' s refl) ∙ e)

list_back :
    (vs : List Text) (t : Text)
    → All (λ v. valid v ≡ true) vs
    → json.marshal_list vs ≡ ok t
    → (json.unmarshal_list t ≡ ok vs) × (has_prefix (trim_space t) (codes "[") ≡ true)
list_back vs t good h =
    subst
      (λ (x : Text).
        (json.unmarshal_list x ≡ ok vs) × (has_prefix (trim_space x) (codes "[") ≡ true))
      (ok-injective h) (ap ok (unframe-frame vs), in_brackets (frame vs))

map_back :
    (es : List (Text × Text)) (t : Text)
    → HasDistinctKeys es
    → IsValidMap valid es
    → json.marshal_map es ≡ ok t
    → (fs : List (Text × Text)) × (json.unmarshal_map t ≡ ok (some fs))
      × SameMap fs es
      × (trim_space t ≢ [])
map_back es t distinct good h = (
  pairs (flat es),
  subst (λ (x : Text). json.unmarshal_map x ≡ ok (some (pairs (flat es)))) (ok-injective h)
      (ap (λ (ts : List Text). ok (some (pairs ts))) (unframe-frame (flat es))),
  λ k. lookup-pairs es k,
  subst (λ (x : Text). trim_space x ≢ []) (ok-injective h) (not_blank (frame (flat es))),
)

json-IsColumnJson : IsColumnJson json valid
json-IsColumnJson = record {
  list_back = list_back;
  empty_list_back = unfold unframe in refl;
  map_back = map_back;
  empty_map_back = unfold unframe pairs in refl;
}

abbrev names : List Text
names = codes "a" ∷ codes "b" ∷ []

abbrev mapping : List (Text × Text)
mapping = (codes "m", codes "m-2024") ∷ (codes "a", codes "b") ∷ []

stored :
    (list_value json names ≡ ok (b'[' ∷ frame names))
    × (map_value json (some mapping) ≡ ok (b'{' ∷ frame (flat mapping)))
unfolding list_value map_value
stored = (refl, refl)

separated :
    (trim_space (commas names) ≢ []) × (has_prefix (trim_space (commas names)) (codes "[") ≡ false)
unfolding trim_space drop_left drop_right strip_prefix commas
separated = (λ e. cc, refl)

distinct : HasDistinctKeys mapping
unfolding lookup text_beq
distinct = (refl, (refl, tt))

scan-value_example :
    ReadsBack json valid json-IsColumnJson
      (scan_list json)
      (b'[' ∷ frame names)
      (normalize_endpoint_capabilities names)
    × ((ws : List Text)
        → names ≡ normalize_endpoint_capabilities ws
        → ReadsBack json valid json-IsColumnJson (scan_list json) (b'[' ∷ frame names) names)
    × ReadsBack json valid json-IsColumnJson
        (scan_list json)
        (commas names)
        (normalize_endpoint_capabilities names)
    × ((fs : List (Text × Text)) × ReadsBack json valid json-IsColumnJson
          (scan_map json)
          (b'{' ∷ frame (flat mapping))
          (some fs)
        × SameMap fs mapping
        × ((p : Provider) (model : Text)
            → upstream_model (record p { model_mapping = some fs }) model
              ≡ upstream_model (record p { model_mapping = some mapping }) model))
scan-value_example =
    scan-value json valid json-IsColumnJson names (some mapping) (b'[' ∷ frame names)
      (b'{' ∷ frame (flat mapping)) (codes "a") (codes "b" ∷ []) (refl, (refl, tt)) distinct
      ((refl, refl), ((refl, refl), tt)) stored.0 stored.1 ((refl, tt), ((refl, tt), tt))
      separated.0 separated.1
