-- ===== src/Http/Headers.antt =====
-- router/internal/app/openai.go: the headers of an upstream response that are passed on.
use aether_code.Base.{
  Bool, List, [], ◌∷◌, ◌++◌, map, Text, codes, ◌==◌, text_eq, any, if◌then◌else◌,
}
use aether_code.Text.{to_lower}
use aether_code.Http.{Write, adds_header}

-- `http.Header`: the values of each key, in the order of iteration.
abbrev pub Header : Type 0
Header = List (Text × List Text)

abbrev pub hop_by_hop : List Text
hop_by_hop =
    codes "connection"
    ∷ codes "keep-alive"
    ∷ codes "proxy-authenticate"
    ∷ codes "proxy-authorization"
    ∷ codes "te"
    ∷ codes "trailer"
    ∷ codes "transfer-encoding"
    ∷ codes "upgrade"
    ∷ []

unfoldable pub is_hop_by_hop_header : Text → Bool
is_hop_by_hop_header key = any (λ name. to_lower key == name) hop_by_hop

abbrev pub header_writes : Text → List Text → List Write
header_writes key values = map (adds_header key) values

unfoldable pub copy_headers : Header → List Write
copy_headers [] = []
copy_headers ((key, values) ∷ src) =
    let rest = copy_headers src in
    if is_hop_by_hop_header key then rest else header_writes key values ++ rest

-- `Header.Get`: the first value of a key, or nothing. `net/http` keeps keys in one letter case.
abbrev pub head_or_empty : List Text → Text
head_or_empty [] = []
head_or_empty (v ∷ vs) = v

unfoldable pub header_get : Header → Text → Text
header_get [] name = []
header_get ((key, values) ∷ header) name =
    let rest = header_get header name in
    if to_lower key == to_lower name then head_or_empty values else rest
