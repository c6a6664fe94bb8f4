-- ===== src/Text/Number.antt =====
-- `strconv.ParseUint` in base 10 with 64 bits.
use aether_code.Base.{
  ℕ, zero, suc, ◌+◌, ◌-◌, ◌*◌, Bool, ◌&&◌, [], ◌∷◌, Option, none, some, Text, codes, leb, ltb,
  if◌then◌else◌, two_64, ◌≡◌, refl,
}

abbrev pub is_digit : ℕ → Bool
is_digit c = leb b'0' c && leb c b'9'

-- The number that digits spell behind `n`, or nothing at another byte.
unfoldable pub scan_digits : ℕ → Text → Option ℕ
scan_digits n [] = some n
scan_digits n (c ∷ s) =
    let rest = scan_digits (n * 10 + (c - b'0')) s in if is_digit c then rest else none

abbrev pub in_range : Option ℕ → Option ℕ
in_range none = none
in_range (some n) = if ltb n two_64 then some n else none

-- `none` is an error: no digits, another byte, or a number that does not fit.
unfoldable pub parse_uint : Text → Option ℕ
parse_uint [] = none
parse_uint (c ∷ s) = in_range (scan_digits 0 (c ∷ s))

-- An id in a path: `ParseUint` with the test for zero.
abbrev pub nonzero : Option ℕ → Option ℕ
nonzero none = none
nonzero (some zero) = none
nonzero (some (suc n)) = some (suc n)

unfoldable pub parse_id : Text → Option ℕ
parse_id part = nonzero (parse_uint part)

parses : parse_uint (codes "1000001") ≡ some 1000001
unfolding parse_uint scan_digits
parses = refl

refuses : parse_uint (codes "12x") ≡ none
unfolding parse_uint scan_digits
refuses = refl
