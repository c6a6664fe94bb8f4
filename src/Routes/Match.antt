-- ===== src/Routes/Match.antt =====
-- router/internal/app/routes.go: a path against a pattern, one segment at a time. `url.PathUnescape`,
-- `none` on an error, is a parameter.
pub mod Laws
use aether_code.Base.{
  ℕ, suc, ◌+◌, Bool, true, false, ◌||◌, ◌&&◌, not, List, [], ◌∷◌, Option, none, some, Text, ◌==◌,
  text_eq, nat_eq, ltb, length, if◌then◌else◌, insert,
}
use aether_code.Text.{
  trim, split, index, take, drop, has_prefix, has_suffix, trim_prefix, trim_suffix, or_else,
}

unfoldable pub split_route_path : Text → List Text
split_route_path path = let path' = trim path b'/' in if path' == [] then [] else split path' b'/'

-- A match of one segment: the name of its parameter, which is empty for a literal, and its value.
abbrev pub Matched : Type 0
Matched = Option (Text × Text)

abbrev pub literal : Text → Text → Matched
literal pattern segment = if pattern == segment then some ([], []) else none

-- A segment against `prefix{name}suffix`.
unfoldable pub match_parameter : Text → Text → Text → Text → Matched
match_parameter prefix name suffix segment =
    if name == [] || not (has_prefix segment prefix) || not (has_suffix segment suffix)
    then none
    else let value = trim_suffix (trim_prefix segment prefix) suffix in
      if value == [] then none else some (name, value)

abbrev pub match_braces : Text → Text → Option ℕ → Option ℕ → Matched
match_braces pattern segment none close = literal pattern segment
match_braces pattern segment (some open') none = literal pattern segment
match_braces pattern segment (some open') (some close) =
    if ltb close open'
    then literal pattern segment
    else match_parameter (take open' pattern) (drop (open' + 1) (take close pattern))
        (drop (close + 1) pattern) segment

unfoldable pub match_route_segment : Text → Text → Matched
match_route_segment pattern segment =
    match_braces pattern segment (index pattern b'{') (index pattern b'}')

abbrev pub Params : Type 0
Params = List (Text × Text)

module _ (unescape : Text → Option Text) where
  abbrev pub with_param : Text → Option Text → Params → Option Params
  with_param name none params = none
  with_param name (some decoded) params = some (insert name decoded params)

  abbrev pub with_match : Matched → Params → Option Params
  with_match none params = none
  with_match (some ([], value)) params = some params
  with_match (some (c ∷ name, value)) params = with_param (c ∷ name) (unescape value) params

  abbrev pub next_segment : Option Params → (Params → Option Params) → Option Params
  next_segment none rest = none
  next_segment (some params) rest = rest params

  unfoldable pub match_segments : List Text → List Text → Params → Option Params
  match_segments [] segments params = some params
  match_segments (p ∷ patterns) [] params = none
  match_segments (p ∷ patterns) (s ∷ segments) params =
      next_segment (with_match (match_route_segment p s) params)
        (λ params'. match_segments patterns segments params')

  unfoldable pub match_route_path : Text → Text → Option Params
  match_route_path pattern path =
      let patterns = split_route_path pattern in
      let segments = split_route_path path in
      if length patterns == length segments then match_segments patterns segments [] else none
