-- ===== src/Text/Defs.antt =====
-- Trimming, splitting, prefixes, case and decimal numbers of Go strings.
use aether_code.Base.{
  ℕ, zero, suc, ◌+◌, ◌-◌, ◌/◌, ◌%◌, Bool, true, false, not, ◌&&◌, ◌||◌, Option, none, some, List,
  [], ◌∷◌, Text, codes, text_beq, leb, ◌==◌, nat_eq, text_eq, if◌then◌else◌, keep, any, ◌≡◌, refl,
}

-- `unicode.IsSpace` on ASCII.
abbrev pub is_space : ℕ → Bool
is_space c = c == b' ' || (leb 9 c && leb c 13)

unfoldable pub drop_left : (ℕ → Bool) → Text → Text
drop_left p [] = []
drop_left p (c ∷ s) = let rest = drop_left p s in if p c then rest else c ∷ s

abbrev pub put_left : (ℕ → Bool) → ℕ → Text → Text
put_left p c [] = if p c then [] else c ∷ []
put_left p c (d ∷ s) = c ∷ d ∷ s

unfoldable pub drop_right : (ℕ → Bool) → Text → Text
drop_right p [] = []
drop_right p (c ∷ s) = put_left p c (drop_right p s)

-- `strings.TrimSpace`
unfoldable pub trim_space : Text → Text
trim_space s = drop_right is_space (drop_left is_space s)

-- `strings.Trim(s, cut)` and `strings.TrimRight(s, cut)` for a cutset of one byte
unfoldable pub trim : Text → ℕ → Text
trim s cut = drop_right (λ c. c == cut) (drop_left (λ c. c == cut) s)

unfoldable pub trim_right : Text → ℕ → Text
trim_right s cut = drop_right (λ c. c == cut) s

abbrev pub cons_head : ℕ → List Text → List Text
cons_head c [] = (c ∷ []) ∷ []
cons_head c (p ∷ ps) = (c ∷ p) ∷ ps

unfoldable pub split_by : (ℕ → Bool) → Text → List Text
split_by p [] = [] ∷ []
split_by p (c ∷ s) = let parts = split_by p s in if p c then [] ∷ parts else cons_head c parts

-- `strings.Split(s, sep)` for a separator of one byte
abbrev pub split : Text → ℕ → List Text
split s sep = split_by (λ c. c == sep) s

abbrev pub is_empty : Text → Bool
is_empty [] = true
is_empty (_ ∷ _) = false

-- `strings.Fields`
abbrev pub fields : Text → List Text
fields s = keep (λ p. not (is_empty p)) (split_by is_space s)

-- The text behind a prefix, and the text before a suffix, if it is there.
unfoldable pub strip_prefix : Text → Text → Option Text
strip_prefix [] s = some s
strip_prefix (c ∷ p) [] = none
strip_prefix (c ∷ p) (d ∷ s) = let rest = strip_prefix p s in if c == d then rest else none

abbrev pub cons_some : ℕ → Option Text → Option Text
cons_some c none = none
cons_some c (some s) = some (c ∷ s)

unfoldable pub strip_suffix : Text → Text → Option Text
strip_suffix suffix [] = if suffix == [] then some [] else none
strip_suffix suffix (c ∷ s) =
    let longer = cons_some c (strip_suffix suffix s) in
    if suffix == (c ∷ s) then some [] else longer

abbrev pub is_some {ℓ} : {A : Type ℓ} → Option A → Bool
is_some none = false
is_some (some _) = true

abbrev pub or_else {ℓ} : {A : Type ℓ} → Option A → A → A
or_else none d = d
or_else (some a) d = a

abbrev pub has_prefix : Text → Text → Bool
has_prefix s p = is_some (strip_prefix p s)

abbrev pub has_suffix : Text → Text → Bool
has_suffix s p = is_some (strip_suffix p s)

abbrev pub trim_prefix : Text → Text → Text
trim_prefix s p = or_else (strip_prefix p s) s

abbrev pub trim_suffix : Text → Text → Text
trim_suffix s p = or_else (strip_suffix p s) s

-- `strings.Contains(s, c)` for one byte
abbrev pub contains : Text → ℕ → Bool
contains s c = any (λ d. d == c) s

abbrev pub lower_byte : ℕ → ℕ
lower_byte c = if leb b'A' c && leb c b'Z' then c + 32 else c

abbrev upper_byte : ℕ → ℕ
upper_byte c = if leb b'a' c && leb c b'z' then c - 32 else c

unfoldable pub to_lower : Text → Text
to_lower [] = []
to_lower (c ∷ s) = lower_byte c ∷ to_lower s

unfoldable pub to_upper : Text → Text
to_upper [] = []
to_upper (c ∷ s) = upper_byte c ∷ to_upper s

-- `strings.EqualFold`
abbrev pub equal_fold : Text → Text → Bool
equal_fold s t = to_lower s == to_lower t

-- Decimal digits, on fuel: `n` falls in each round, so `n + 1` rounds are enough.
digits : ℕ → ℕ → Text → Text
digits zero n out = out
digits (suc f) n out =
    let d = (b'0' + n % 10) ∷ out in
    let more = digits f (n / 10) d in if n / 10 == 0 then d else more

-- `strconv.FormatUint(n, 10)`
unfoldable pub format_uint : ℕ → Text
unfolding digits
format_uint n = digits (suc n) n []

trims : trim_space (codes " \ta b\n ") ≡ codes "a b"
unfolding trim_space drop_left drop_right
trims = refl

lowers : to_lower (codes "OpenAI.Chat") ≡ codes "openai.chat"
unfolding to_lower
lowers = refl

splits : split (codes "a,,b") b',' ≡ codes "a" ∷ [] ∷ codes "b" ∷ []
unfolding split_by
splits = refl

formats : format_uint 1000001 ≡ codes "1000001"
unfolding format_uint
formats = refl

strips : strip_suffix (codes "/b") (codes "a/b/b") ≡ some (codes "a/b")
unfolding strip_suffix text_beq
strips = refl

-- The first `n` bytes, and the rest.
unfoldable pub take : ℕ → Text → Text
take n [] = []
take zero (c ∷ s) = []
take (suc n) (c ∷ s) = c ∷ take n s

unfoldable pub drop : ℕ → Text → Text
drop n [] = []
drop zero (c ∷ s) = c ∷ s
drop (suc n) (c ∷ s) = drop n s

-- `strings.IndexByte`, `none` for -1
abbrev pub suc_some : Option ℕ → Option ℕ
suc_some none = none
suc_some (some n) = some (suc n)

unfoldable pub index : Text → ℕ → Option ℕ
index [] c = none
index (d ∷ s) c = let rest = index s c in if d == c then some 0 else suc_some rest
