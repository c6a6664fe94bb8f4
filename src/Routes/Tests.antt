-- ===== src/Routes/Tests.antt =====
-- The theorems about routes at concrete paths, and runs of the table.
use aether_code.Base.{
  [], ◌∷◌, ◌++◌, Option, some, Text, codes, text_eq, nat_eq, text_beq, insert, ◌↔◌, ◌≡◌, ◌≢◌, refl,
}
use aether_code.Text.{
  trim, drop_left, drop_right, split_by, index, take, drop, strip_prefix, strip_suffix,
}
use aether_code.Routes.{relay_route_matrix, post}
use aether_code.Routes.Match.{
  match_route_segment, match_parameter, match_segments, match_route_path, split_route_path,
}
use aether_code.Routes.Match.Laws.{LacksByte, match_route_segment_iff, match_route_segment-append}
use aether_code.Routes.Dispatch.{Route, handled, route_from}
use aether_code.Routes.Dispatch.Laws.{Decided, route-Decided}

abbrev unescape : Text → Option Text
unescape t = some t

-- What evaluating the table unfolds.
route_runs : Unit {0}
unfolding relay_route_matrix match_route_segment match_parameter match_segments match_route_path
    split_route_path route_from trim drop_left drop_right split_by index take drop strip_prefix
    strip_suffix text_beq insert
route_runs = tt

abbrev pattern_of : Route → Text
pattern_of (handled r params) = r.path_pattern
pattern_of (Route.method_not_allowed rs) = codes "405"
pattern_of Route.not_found = codes "404"

abbrev routed : Text → Text → Text
routed method path = pattern_of (route_from unescape method path relay_route_matrix [])

routes :
    (routed post (codes "/v1/chat/completions/") ≡ codes "/v1/chat/completions")
    × (routed (codes "GET") (codes "/v1/chat/completions") ≡ codes "405")
    × (routed (codes "GET") (codes "/v1/models/gpt-4o") ≡ codes "/v1/models/{model}")
    × (routed post (codes "/v1beta/models/g:generateContent")
        ≡ codes "/v1beta/models/{model}:generateContent")
    × (routed post (codes "/v2") ≡ codes "404")
unfolding route_runs
routes = (refl, refl, refl, refl, refl)

route-Decided_example :
    Decided unescape post
      (codes "/v1/rerank")
      []
      relay_route_matrix
      (route_from unescape post (codes "/v1/rerank") relay_route_matrix [])
route-Decided_example = route-Decided unescape post (codes "/v1/rerank") relay_route_matrix

lacks : LacksByte b'}' (codes "model")
lacks = (refl, (refl, (refl, (refl, (refl, tt)))))

match_route_segment_iff_example :
    (match_route_segment (b'{' ∷ (codes "model" ++ b'}' ∷ codes ":go")) (codes "m:go")
      ≡ some (codes "model", codes "m"))
    ↔ ((codes "model" ≡ codes "model")
        × (codes "m" ≢ [])
        × (codes "m:go" ≡ codes "m" ++ codes ":go"))
match_route_segment_iff_example =
    match_route_segment_iff (codes "model") (codes ":go") (codes "m:go") (codes "model") (codes "m")
      lacks (λ e. cc)

match_route_segment-append_example :
    match_route_segment
      (codes "v" ++ b'{' ∷ (codes "id" ++ b'}' ∷ codes "x"))
      (codes "v" ++ (codes "12" ++ codes "x"))
    ≡ some (codes "id", codes "12")
match_route_segment-append_example =
    match_route_segment-append (codes "v") (codes "id") (codes "x") (refl, tt) (refl, tt)
      (refl, (refl, tt)) (codes "12") (λ e. cc) (λ e. cc)
