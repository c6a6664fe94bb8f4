-- ===== src/Relay/Serve.antt =====
-- router/internal/app/routes.go: the handler of every path that is neither a probe's nor the
-- administration's. A request has been authenticated beforehand: the outcome is read where the code
-- authenticates.
pub mod Table
pub mod Laws
use aether_code.Base.{
  ℕ, Bool, List, [], ◌∷◌, map, Option, none, some, Text, codes, ◌==◌, text_eq, if◌then◌else◌,
  Result, ok, err,
}
use aether_code.Store.Provider.{Time}
use aether_code.Store.Cache.{Cache}
use aether_code.Keys.{AuthIdentity}
use aether_code.Http.{Json, Write, write_json, write_openai_error, http_not_found}
use aether_code.Routes.{
  RelayRouteDescriptor, relay_route_matrix, status_implemented, status_metadata, status_unsupported,
}
use aether_code.Routes.Dispatch.{
  Route, handled, method_not_allowed, not_found, route_from, write_method_not_allowed,
}
use aether_code.Relay.Body.{chat_completions, completions}
use aether_code.Relay.Attempts.{World, Config, Event, records, writes, UsageRecord, failed}
use aether_code.Relay.Handler.{Request, openai_route}
use aether_code.Relay.Listings.{Listing, handle_model_metadata_route}

module _ (w : World) (cfg : Config) (encode_listing : Listing → Text)
    (encode_unsupported : RelayRouteDescriptor → Text) (listed : Cache) (now : Time) where
  abbrev pub unsupported_record : RelayRouteDescriptor → UsageRecord
  unsupported_record descriptor = record {
    started_at = now;
    completed_at = now;
    model_id = [];
    selected = none;
    endpoint_capability = descriptor.capability;
    outcome = failed;
    status_code = 501;
    upstream_status = 0;
    cache_state = none;
    error_code = codes "unsupported_endpoint";
  }

  unfoldable pub write_unsupported_endpoint : RelayRouteDescriptor → List Write
  write_unsupported_endpoint descriptor = write_json 501 (encode_unsupported descriptor)

  abbrev pub unsupported_status : Text → List Write
  unsupported_status message =
      write_openai_error w.json 500 (codes "api_error") (codes "unsupported_route_status") message

  unfoldable pub handle_implemented_relay_route :
      Request → RelayRouteDescriptor → Option (List Event)
  handle_implemented_relay_route r descriptor =
      if descriptor.implementation_id == codes "chat_completions"
      then openai_route w cfg now chat_completions r
      else if descriptor.implementation_id == codes "completions"
      then openai_route w cfg now completions r
      else some (map writes (unsupported_status (codes "unsupported route implementation")))

  -- `checkPublicAuth`, and what follows if it passes
  abbrev pub if_authenticated : Result Text (Option AuthIdentity) → List Event → Option (List Event)
  if_authenticated (err e) events = some (
      map writes
        (write_openai_error w.json 401 (codes "invalid_request_error") (codes "unauthorized") e))
  if_authenticated (ok identity) events = some events

  unfoldable pub handle_relay_route :
      Request → RelayRouteDescriptor → List (Text × Text) → Option (List Event)
  unfolding handle_implemented_relay_route
  handle_relay_route r descriptor params =
      if descriptor.implementation == status_implemented
      then handle_implemented_relay_route r descriptor
      else if descriptor.implementation == status_metadata
      then if_authenticated r.auth (
          map writes (
            handle_model_metadata_route w.json encode_listing listed descriptor.response_format
              params))
      else if descriptor.implementation == status_unsupported
      then if_authenticated r.auth (
          records (unsupported_record descriptor)
          ∷ map writes (write_unsupported_endpoint descriptor))
      else some (map writes (unsupported_status (codes "unsupported route status")))

  abbrev pub dispatched : Request → Route → Option (List Event)
  dispatched r (handled descriptor params) = handle_relay_route r descriptor params
  dispatched r (method_not_allowed descriptors) =
      some (map writes (write_method_not_allowed w.json descriptors))
  dispatched r not_found = some (map writes http_not_found)

  -- `relayRouteHandler`; `none` is a panic.
  unfoldable pub relay_route_handler : (Text → Option Text) → Text → Request → Option (List Event)
  relay_route_handler unescape path r =
      dispatched r (route_from unescape r.method path relay_route_matrix [])
