-- ===== src/Store/Cache/Pick.antt =====
-- router/internal/store/provider.go: `pickWeighted`. A Go `int` is its 64-bit pattern; `rand.Intn`
-- is a parameter, and `none` is a panic.
pub mod Shares
use aether_code.Base.{
  ℕ, zero, suc, ◌+◌, ◌-◌, ◌%◌, ◌<◌, ◌≤◌, Bool, true, false, List, [], ◌∷◌, ◌++◌, Option, none, some,
  ◌==◌, nat_eq, leb, if◌then◌else◌, length, two_64, two_63, ◌≡◌, refl, ◌≢◌, arith,
}
use aether_code.Store.Provider.{Provider}

abbrev pub add_int : ℕ → ℕ → ℕ
add_int a b = (a + b) % two_64

abbrev pub sub_int : ℕ → ℕ → ℕ
sub_int a b = (a + two_64 - b % two_64) % two_64

abbrev pub is_negative : ℕ → Bool
is_negative a = leb two_63 a

abbrev pub provider_at : List Provider → ℕ → Option Provider
provider_at [] i = none
provider_at (p ∷ ps) zero = some p
provider_at (p ∷ ps) (suc i) = provider_at ps i

unfoldable pub add_weights : ℕ → List Provider → ℕ
add_weights total [] = total
add_weights total (p ∷ ps) = add_weights (add_int total p.weight) ps

-- The last loop, and the return behind it: `last` is the provider seen last.
unfoldable pub walk : ℕ → Provider → List Provider → Provider
walk n last [] = last
walk n last (p ∷ ps) =
    let left = sub_int n p.weight in
    let rest = walk left p ps in if is_negative left then p else rest

unfoldable pub pick_weighted : (ℕ → ℕ) → List Provider → Option Provider
pick_weighted intn [] = none
pick_weighted intn (p ∷ []) = some p
pick_weighted intn (p ∷ q ∷ ps) =
    let providers = p ∷ q ∷ ps in
    let total = add_weights 0 providers in
    if total == 0
    then provider_at providers (intn (length providers))
    else if is_negative total
    then none
    else some (walk (intn total) p providers)
