-- ===== src/Admin/Answers.antt =====
-- The effect of an answer that comes before any write.
use aether_code.Base.{
  ℕ, ◌≤◌, List, [], Option, none, some, Text, codes, ◌==◌, text_eq, Bool-cases, inl, inr, ◌≡◌, refl,
  arith, subst, some-injective,
}
use aether_code.Store.Provider.{Time}
use aether_code.Store.Cache.{Cache}
use aether_code.Store.Database.{Database}
use aether_code.Store.Mutations.{Store}
use aether_code.Http.{Write, http_error, refuse_method}
use aether_code.Http.Laws.{IsError, http_error-IsError, refuse_method-IsError}
use aether_code.Relay.Auth.{AuthConfig, check_admin_auth, key_from_request}
use aether_code.Admin.{Endpoint, Codec, Request, Handled, admitted, with_admin_auth}
use aether_code.Admin.Effects.{Effect, refused-Effect}

check_admin_auth-IsError :
    (cfg : AuthConfig) (header : Text → Text) {ws : List Write}
    → check_admin_auth cfg header ≡ some ws
    → IsError ws
unfolding check_admin_auth
check_admin_auth-IsError cfg header {ws} h = elim (Bool-cases (cfg.admin_key == [])) [
  | inl t ↦
      subst IsError (some-injective (rw t at h))
        (http_error-IsError (codes "ROUTER_ADMIN_KEY is not configured") 403 (omega arith))
  | inr f ↦ elim (Bool-cases (key_from_request header == cfg.admin_key)) [
    | inl t ↦ absurd (gone (rw (f, t) at h))
    | inr g ↦
        subst IsError (some-injective (rw (f, g) at h))
          (http_error-IsError (codes "invalid admin key") 401 (omega arith))
  ]
]
  where
    gone : none ≡ some ws → ⊥
    gone e = cc

module _ (codec : Codec) (getenv : Text → Text) (read_file : Text → Option Text) (d : Database)
    (s : Store d) (cfg : AuthConfig) (now : Time) (e : Endpoint) (r : Request) (c : Cache)
    (db : d.Db) where
  abbrev pub HasEffect : Handled getenv read_file d s → Type 0
  HasEffect handled = Effect getenv read_file d s now codec e r c db handled

  pub refusal : (message : Text) (k : ℕ) → 400 ≤ k → HasEffect (http_error message k, c, db)
  refusal message k h =
      refused-Effect getenv read_file d s now codec e r c db _ (http_error-IsError message k h)

  pub method_refusal : (allowed : Text) → HasEffect (refuse_method allowed, c, db)
  method_refusal allowed =
      refused-Effect getenv read_file d s now codec e r c db _ (refuse_method-IsError allowed)

  admitted-Effect_cases :
      (o : Option (List Write)) (handled : Handled getenv read_file d s)
      → check_admin_auth cfg r.header ≡ o
      → HasEffect handled
      → HasEffect (admitted getenv read_file d s c db o handled)
  admitted-Effect_cases none handled auth h = h
  admitted-Effect_cases (some ws) handled auth h =
      refused-Effect getenv read_file d s now codec e r c db ws
        (check_admin_auth-IsError cfg r.header auth)

  pub admitted-Effect :
      (handled : Handled getenv read_file d s)
      → HasEffect handled
      → HasEffect (with_admin_auth getenv read_file d s cfg r c db handled)
  unfolding with_admin_auth
  admitted-Effect handled h = admitted-Effect_cases _ handled refl h
