-- ===== src/Relay/Body.antt =====
-- router/internal/app/openai.go: the request envelope, its checks, and the body that each attempt replays
-- with the model name of its provider.
pub mod Laws
use aether_code.Base.{
  ℕ, List, [], Option, none, some, Text, codes, ◌==◌, text_eq, keep, not, if◌then◌else◌, insert,
  lookup, Result, ok, err, ltb, length, ℤ, pos_part,
}
use aether_code.Text.{trim_space}
use aether_code.Store.Provider.{Provider, upstream_model}
use aether_code.Store.Capability.{
  endpoint_capability_openai_chat_completions, endpoint_capability_openai_completions,
}
use aether_code.Http.{Json}

-- The two endpoints (router/internal/upstream/client.go). A kind is a string in the source, which the
-- handlers take from these two constants.
pub data Kind : Type 0 where
  chat_completions completions : Kind

unfoldable pub openai_endpoint_capability : Kind → Text
openai_endpoint_capability chat_completions = endpoint_capability_openai_chat_completions
openai_endpoint_capability completions = endpoint_capability_openai_completions

pub record ReplayableBody : Type 0 where
  pub fields : List (Text × Text)
  pub model : Text

abbrev pub openai_compatible_format : Text
openai_compatible_format = codes "openai-compatible"

pub record Envelope : Type 0 where
  pub format : Text
  pub kind : Kind
  pub body : ReplayableBody

pub record ValidationError : Type 0 where
  pub status : ℕ
  pub type : Text
  pub code : Text
  pub message : Text

abbrev pub model_key : Text
model_key = codes "model"

abbrev pub group_key : Text
group_key = codes "group"

-- Every field but `group`.
unfoldable pub new_replayable_body : List (Text × Text) → Text → ReplayableBody
new_replayable_body request model = record {
  fields = keep (λ field. not (field.0 == group_key)) request;
  model = model;
}

module _ (json : Json) where
  abbrev pub model_of_string : Option Text → Result Text Text
  model_of_string none = err (codes "field model must be a non-empty string")
  model_of_string (some model) =
      if trim_space model == []
      then err (codes "field model must be a non-empty string")
      else ok (trim_space model)

  abbrev pub model_of_field : Option Text → Result Text Text
  model_of_field none = err (codes "field model is required")
  model_of_field (some raw) = model_of_string (json.decode_string raw)

  unfoldable pub model_from_request : List (Text × Text) → Result Text Text
  model_from_request request = model_of_field (lookup model_key request)

  unfoldable pub encode_for : ReplayableBody → Provider → Text → Result Text Text
  encode_for b p model =
      json.encode_object (insert model_key (json.encode_string (upstream_model p model)) b.fields)

  abbrev invalid : ℕ → Text → Text → ValidationError
  invalid status code message = record {
    status = status;
    type = codes "invalid_request_error";
    code = code;
    message = message;
  }

  abbrev pub with_model :
      Kind → List (Text × Text) → Result Text Text → Result ValidationError Envelope
  with_model kind request (err message) = err (invalid 400 (codes "model_required") message)
  with_model kind request (ok model) = ok (record {
    format = openai_compatible_format;
    kind = kind;
    body = new_replayable_body request model;
  })

  abbrev pub with_request : Kind → Option (List (Text × Text)) → Result ValidationError Envelope
  with_request kind none =
      err (invalid 400 (codes "invalid_json") (codes "request body must be valid JSON"))
  with_request kind (some request) = with_model kind request (model_from_request request)

  -- The body as the client sends it: its bytes, or `none` if reading it fails. `http.MaxBytesReader`
  -- refuses a body that is longer than its limit.
  abbrev pub read_body : ℤ → Option Text → Option Text
  read_body max_bytes none = none
  read_body max_bytes (some bytes) =
      if ltb (pos_part max_bytes) (length bytes) then none else some bytes

  abbrev pub with_body : Kind → Option Text → Result ValidationError Envelope
  with_body kind none =
      err (invalid 413 (codes "request_too_large") (codes "request body is too large"))
  with_body kind (some bytes) = with_request kind (json.decode_object bytes)

  unfoldable pub openai_compatible_envelope :
      ℤ → Option Text → Kind → Result ValidationError Envelope
  openai_compatible_envelope max_bytes sent kind = with_body kind (read_body max_bytes sent)
