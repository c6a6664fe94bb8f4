-- ===== src/Http.antt =====
-- router/internal/app: what a handler does to its `http.ResponseWriter`, in order, and the error answer
-- of router/internal/app/errors.go. The JSON codecs of the standard library are an interface.
pub mod Headers
pub mod Laws
use aether_code.Base.{ℕ, Bool, true, false, List, [], ◌∷◌, ◌++◌, Option, Text, codes, Result}

-- One call of the writer. A body is what the call wrote of its data.
pub data Write : Type 0 where
  sets_header adds_header : Text → Text → Write
  writes_status : ℕ → Write
  writes_body : Text → Write
  flushes : Write

-- `encoding/json` at the types that the router uses. An object that is read keeps its values as raw text, and
-- one that is written has them in compact form.
pub record Json : Type 0 where
  pub decode_object : Text → Option (List (Text × Text))
  pub decode_string : Text → Option Text
  pub encode_string : Text → Text
  pub encode_object : List (Text × Text) → Result Text Text
  -- `openAIError` with its message, type and code
  pub encode_error : Text → Text → Text → Text

unfoldable pub write_openai_error : Json → ℕ → Text → Text → Text → List Write
write_openai_error json status type code message =
    sets_header (codes "Content-Type") (codes "application/json")
    ∷ writes_status status
    ∷ writes_body (json.encode_error message type code)
    ∷ []

-- `http.Error`, which ends the message with a line feed
unfoldable pub http_error : Text → ℕ → List Write
http_error message status =
    sets_header (codes "Content-Type") (codes "text/plain; charset=utf-8")
    ∷ sets_header (codes "X-Content-Type-Options") (codes "nosniff")
    ∷ writes_status status
    ∷ writes_body (message ++ 10 ∷ [])
    ∷ []

-- `http.NotFound`
unfoldable pub http_not_found : List Write
unfolding http_error
http_not_found = http_error (codes "404 page not found") 404

-- `writeJSON`, given the encoded value
unfoldable pub write_json : ℕ → Text → List Write
write_json status value =
    sets_header (codes "Content-Type") (codes "application/json")
    ∷ writes_status status
    ∷ writes_body value
    ∷ []

-- The answer to a method that a handler does not serve.
unfoldable pub refuse_method : Text → List Write
unfolding http_error
refuse_method allowed =
    sets_header (codes "Allow") allowed ∷ http_error (codes "method not allowed") 405

-- The status codes of an answer, in order: a client sees the first one.
unfoldable pub statuses : List Write → List ℕ
statuses [] = []
statuses (writes_status s ∷ ws) = s ∷ statuses ws
statuses (sets_header k v ∷ ws) = statuses ws
statuses (adds_header k v ∷ ws) = statuses ws
statuses (writes_body b ∷ ws) = statuses ws
statuses (flushes ∷ ws) = statuses ws

-- The bytes of an answer.
unfoldable pub body_of : List Write → Text
body_of [] = []
body_of (writes_status s ∷ ws) = body_of ws
body_of (sets_header k v ∷ ws) = body_of ws
body_of (adds_header k v ∷ ws) = body_of ws
body_of (writes_body b ∷ ws) = b ++ body_of ws
body_of (flushes ∷ ws) = body_of ws
