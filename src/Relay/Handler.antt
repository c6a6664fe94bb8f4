-- ===== src/Relay/Handler.antt =====
-- router/internal/app/openai.go and server.go: the handler of the two relay endpoints, from the method test
-- to the answer.
pub mod Laws
use aether_code.Base.{
  ℕ, Bool, true, false, List, [], ◌∷◌, map, Option, none, some, Text, codes, ◌==◌, text_eq,
  if◌then◌else◌, Result, ok, err,
}
use aether_code.Store.Provider.{Time}
use aether_code.Keys.{AuthIdentity}
use aether_code.Http.{Write, sets_header, write_openai_error}
use aether_code.Relay.Body.{
  Kind, Envelope, ValidationError, openai_compatible_envelope, openai_endpoint_capability,
}
use aether_code.Relay.Attempts.{
  World, Config, Event, records, writes, UsageRecord, failed, relay_openai_compatible,
}

-- A request: its method, its body as `none` if it cannot be read, and the outcome of its authentication.
pub record Request : Type 0 where
  pub method : Text
  pub body : Option Text
  pub auth : Result Text (Option AuthIdentity)

module _ (w : World) (cfg : Config) (started_at : Time) (kind : Kind) where
  abbrev pub validation_record : ValidationError → UsageRecord
  validation_record e = record {
    started_at = started_at;
    completed_at = w.clock 0;
    model_id = [];
    selected = none;
    endpoint_capability = openai_endpoint_capability kind;
    outcome = failed;
    status_code = e.status;
    upstream_status = 0;
    cache_state = none;
    error_code = e.code;
  }

  abbrev pub after_envelope : Result ValidationError Envelope → Option (List Event)
  after_envelope (err e) = some (
      records (validation_record e)
      ∷ map writes (write_openai_error w.json e.status e.type e.code e.message))
  after_envelope (ok envelope) = relay_openai_compatible w cfg started_at envelope

  abbrev pub after_auth : Option Text → Result Text (Option AuthIdentity) → Option (List Event)
  after_auth body (err e) = some (
      map writes
        (write_openai_error w.json 401 (codes "invalid_request_error") (codes "unauthorized") e))
  after_auth body (ok identity) =
      after_envelope (openai_compatible_envelope w.json cfg.max_body_bytes body kind)

  -- `none` is a panic.
  unfoldable pub openai_route : Request → Option (List Event)
  openai_route r =
      if r.method == codes "POST"
      then after_auth r.body r.auth
      else some (
          map writes (
            sets_header (codes "Allow") (codes "POST")
            ∷ write_openai_error w.json 405 (codes "invalid_request_error")
                (codes "method_not_allowed") (codes "method not allowed")))
