-- ===== src/Store/Capability.antt =====
-- router/internal/store/provider.go: endpoint capabilities and comma-separated lists.
pub mod Laws
use aether_code.Base.{
  ℕ, Bool, true, false, ◌||◌, not, List, [], ◌∷◌, Text, codes, text_beq, ◌==◌, text_eq, nat_eq,
  if◌then◌else◌, any, keep, map, ◌≡◌, refl,
}
use aether_code.Text.{trim_space, trim, to_lower, split, split_by, is_empty, drop_left, drop_right}

abbrev pub endpoint_capability_openai_chat_completions : Text
endpoint_capability_openai_chat_completions = codes "openai.chat_completions"

abbrev pub endpoint_capability_openai_completions : Text
endpoint_capability_openai_completions = codes "openai.completions"

abbrev pub endpoint_capability_gemini_generate : Text
endpoint_capability_gemini_generate = codes "gemini.generate"

unfoldable pub default_endpoint_capabilities : List Text
default_endpoint_capabilities =
    endpoint_capability_openai_chat_completions ∷ endpoint_capability_openai_completions ∷ []

unfoldable pub normalize_endpoint_capability : Text → Text
normalize_endpoint_capability value = to_lower (trim_space value)

-- `seen[s]` for a map that is used as a set
abbrev pub seen_in : List Text → Text → Bool
seen_in seen s = any (λ t. t == s) seen

-- The loop of `NormalizeEndpointCapabilities`: it appends to `out` what `seen` does not hold yet.
unfoldable pub normalize_unseen : List Text → List Text → List Text
normalize_unseen seen [] = []
normalize_unseen seen (value ∷ values) =
    let normalized = normalize_endpoint_capability value in
    let skip = normalize_unseen seen values in
    let append = normalized ∷ normalize_unseen (normalized ∷ seen) values in
    if normalized == [] || seen_in seen normalized then skip else append

unfoldable pub normalize_endpoint_capabilities : List Text → List Text
normalize_endpoint_capabilities values = normalize_unseen [] values

-- `strings.TrimSpace` of each part; the empty ones are left out.
unfoldable pub compact_strings : List Text → List Text
compact_strings values = keep (λ part. not (is_empty part)) (map trim_space values)

unfoldable pub split_csv : Text → Text → List Text
split_csv value fallback =
    let trimmed = trim (trim_space value) b',' in
    if trimmed == []
    then if fallback == [] then [] else fallback ∷ []
    else compact_strings (split trimmed b',')

normalizes :
    normalize_endpoint_capabilities (
      codes " OpenAI.Chat_Completions "
      ∷ codes "openai.chat_completions"
      ∷ codes "openai.embeddings"
      ∷ []
      ∷ [])
    ≡ codes "openai.chat_completions" ∷ codes "openai.embeddings" ∷ []
unfolding normalize_endpoint_capabilities normalize_unseen normalize_endpoint_capability trim_space
    drop_left drop_right to_lower text_beq
normalizes = refl

splits : split_csv (codes " ,gpt-4o, ,mini,") [] ≡ codes "gpt-4o" ∷ codes "mini" ∷ []
unfolding split_csv compact_strings trim trim_space drop_left drop_right split_by text_beq keep
splits = refl

-- The default capabilities are in normal form.
pub default-IsNormalized :
    normalize_endpoint_capabilities default_endpoint_capabilities ≡ default_endpoint_capabilities
unfolding normalize_endpoint_capabilities normalize_unseen normalize_endpoint_capability trim_space
    drop_left drop_right to_lower text_beq default_endpoint_capabilities
default-IsNormalized = refl
