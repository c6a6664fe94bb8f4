-- ===== src/Routes/Dispatch.antt =====
-- router/internal/app/routes.go: the choice of the route of a request.
pub mod Laws
use aether_code.Base.{
  ℕ, Bool, true, false, List, [], ◌∷◌, ◌++◌, map, Option, none, some, Text, codes, ◌==◌, text_eq,
  any, if◌then◌else◌, ltb,
}
use aether_code.Http.{Write, Json, sets_header, write_openai_error}
use aether_code.Text.{sort_texts, join}
use aether_code.Routes.{RelayRouteDescriptor}
use aether_code.Routes.Match.{Params, match_route_path}

-- What the loop over the table ends with.
pub data Route : Type 0 where
  handled : RelayRouteDescriptor → List (Text × Text) → Route
  method_not_allowed : List RelayRouteDescriptor → Route
  not_found : Route

abbrev pub unhandled : List RelayRouteDescriptor → Route
unhandled [] = not_found
unhandled (r ∷ rs) = method_not_allowed (r ∷ rs)

module _ (unescape : Text → Option Text) (method path : Text) where
  abbrev pub matched_here :
      RelayRouteDescriptor
      → Option (List (Text × Text))
      → List RelayRouteDescriptor
      → (List RelayRouteDescriptor → Route)
      → Route
  matched_here r none matched next = next matched
  matched_here r (some params) matched next =
      if r.method == method then handled r params else next (matched ++ r ∷ [])

  -- The loop, with the descriptors whose path has matched so far.
  unfoldable pub route_from : List RelayRouteDescriptor → List RelayRouteDescriptor → Route
  route_from [] matched = unhandled matched
  route_from (r ∷ rs) matched =
      matched_here r (match_route_path unescape r.path_pattern path) matched (λ m. route_from rs m)

unfoldable pub methods_of : List Text → List RelayRouteDescriptor → List Text
methods_of seen [] = []
methods_of seen (r ∷ rs) =
    if any (λ m. m == r.method) seen
    then methods_of seen rs
    else r.method ∷ methods_of (r.method ∷ seen) rs

unfoldable pub write_method_not_allowed : Json → List RelayRouteDescriptor → List Write
write_method_not_allowed json descriptors =
    sets_header (codes "Allow") (join (sort_texts (methods_of [] descriptors)))
    ∷ write_openai_error json 405 (codes "invalid_request_error") (codes "method_not_allowed")
        (codes "method not allowed")
