-- ===== src/Relay/Tests/Requests.antt =====
-- The theorems about the checks, the body and the authentication of a request at concrete inputs.
use aether_code.Base.{
  Text, true, false, none, some, text_eq, List, [], ◌∷◌, codes, text_beq, ◌==◌, nat_eq, pos,
  if◌then◌else◌, ok, ◌≡◌, refl, lookup, insert, keep,
}
use aether_code.Relay.Usage.{sanitize_request_id}
use aether_code.Relay.Usage.Laws.{IsRequestId, sanitize_request_id_lem}
use aether_code.Text.{take, drop, trim_space, drop_left, drop_right, to_lower}
use aether_code.Store.Provider.{upstream_model}
use aether_code.Store.Cache.{zero_provider}
use aether_code.Relay.Body.{
  model_key, group_key, new_replayable_body, encode_for, openai_compatible_envelope,
  model_from_request, chat_completions, openai_compatible_format,
}
use aether_code.Text.Frame.{frame, unframe, flat, pairs}
use aether_code.Relay.Tests.Codec.{compact, small_json, small_json-IsCodec}
use aether_code.Relay.Body.Laws.{compacted, IsAccepted, encode_for-fields, envelope-IsAccepted}
use aether_code.Relay.Auth.{
  AuthConfig, authenticate_public_request, key_from_request, bearer_token, static_identity,
  by_account,
}
use aether_code.Relay.Auth.Laws.{IsAuthenticated, authenticate-IsAuthenticated}

-- What evaluating a body and an authentication unfolds.
body_runs : Unit {0}
unfolding encode_for new_replayable_body upstream_model keep lookup insert text_beq trim_space
    drop_left drop_right take drop openai_compatible_envelope model_from_request frame unframe flat
    pairs
body_runs = tt

auth_runs : Unit {0}
unfolding authenticate_public_request key_from_request bearer_token take drop trim_space drop_left
    drop_right text_beq to_lower
auth_runs = tt

abbrev bytes : Text
bytes = frame (model_key ∷ codes " m" ∷ [])

abbrev asked : Text
asked = frame (codes "stop" ∷ codes "[1, 2]" ∷ model_key ∷ codes "any" ∷ group_key ∷ codes "g" ∷ [])

abbrev read : List (Text × Text)
read = (group_key, codes "g") ∷ (model_key, codes "any") ∷ (codes "stop", codes "[1, 2]") ∷ []

reads : small_json.decode_object asked ≡ some read
unfolding body_runs
reads = refl

abbrev upstream_body : Text
upstream_body = frame (model_key ∷ codes "m" ∷ codes "stop" ∷ codes "[1,2]" ∷ [])

sent :
    encode_for small_json (new_replayable_body read (codes "m")) zero_provider (codes "m")
    ≡ ok upstream_body
unfolding body_runs
sent = refl

encode_for-fields_example :
    (fields : List (Text × Text)) × (small_json.decode_object upstream_body ≡ some fields)
    × ((k : Text)
        → lookup k fields ≡ (
            if k == model_key
            then some (small_json.encode_string (upstream_model zero_provider (codes "m")))
            else if k == group_key
            then none
            else compacted compact (lookup k read)))
encode_for-fields_example =
    encode_for-fields small_json (λ k. true) compact asked read zero_provider (codes "m")
      small_json-IsCodec reads sent

accepts :
    openai_compatible_envelope small_json (pos 20) (some bytes) chat_completions
    ≡ ok (record {
      format = openai_compatible_format;
      kind = chat_completions;
      body = new_replayable_body ((model_key, codes " m") ∷ []) (codes "m");
    })
unfolding body_runs
accepts = refl

envelope-IsAccepted_example : IsAccepted small_json (pos 20) (some bytes) chat_completions (record {
  format = openai_compatible_format;
  kind = chat_completions;
  body = new_replayable_body ((model_key, codes " m") ∷ []) (codes "m");
})
envelope-IsAccepted_example =
    envelope-IsAccepted small_json (pos 20) chat_completions (some bytes) accepts

abbrev auth_config : AuthConfig
auth_config = record {
  api_key = codes "k";
  admin_key = [];
  account_key_auth = false;
  api_key_hash_secret = [];
}

abbrev headers : Text → Text
headers name = if name == codes "Authorization" then codes "bearer k" else []

authenticated :
    authenticate_public_request (λ s t. t) auth_config none none headers ≡ ok (some static_identity)
unfolding auth_runs
authenticated = refl

authenticate-IsAuthenticated_example :
    IsAuthenticated auth_config
      (key_from_request headers)
      (by_account (λ s t. t) auth_config none none (key_from_request headers) none)
      (some static_identity)
authenticate-IsAuthenticated_example =
    authenticate-IsAuthenticated (λ s t. t) auth_config none none headers authenticated

sanitize_request_id_lem_example :
    let id = sanitize_request_id (codes " a/b c") in IsRequestId id × (sanitize_request_id id ≡ id)
sanitize_request_id_lem_example = sanitize_request_id_lem (codes " a/b c")
