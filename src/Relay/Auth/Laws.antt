-- ===== src/Relay/Auth/Laws.antt =====
-- Nobody passes without a key that is configured or that the account keys know.
use aether_code.Base.{
  Bool, true, false, ◌&&◌, not, [], Option, none, some, Text, ◌==◌, text_eq, text_beq_iff, Result,
  ok, err, inl, inr, ◌⊎◌, ◌≡◌, ◌≢◌, refl, sym, Bool-cases, ok-injective, arith, subst,
}
use aether_code.Keys.{AuthIdentity}
use aether_code.Keys.Cache.{ApiKeyCache}
use aether_code.Relay.Auth.{
  AuthConfig, key_from_request, authenticate_public_request, by_account, identified,
  static_identity,
}

-- An identity is that of the configured key, or the one that the check of the account keys has returned.
abbrev pub IsAuthenticated :
    AuthConfig → Text → Result Text AuthIdentity → Option AuthIdentity → Type 0
IsAuthenticated cfg raw checked none = (cfg.api_key ≡ []) × (cfg.account_key_auth ≡ false)
IsAuthenticated cfg raw checked (some identity) =
    ((cfg.api_key ≢ []) × (raw ≡ cfg.api_key) × (identity ≡ static_identity))
    ⊎ ((cfg.account_key_auth ≡ true) × (raw ≢ []) × (checked ≡ ok identity))

identified-eq-ok :
    (r : Result Text AuthIdentity) {o : Option AuthIdentity}
    → identified r ≡ ok o
    → (i : AuthIdentity) × (o ≡ some i) × (r ≡ ok i)
identified-eq-ok (ok i) h = (i, sym (ok-injective h), refl)
identified-eq-ok (err e) h = cc

refused :
    {A : Type 0} {x : Text} {o : Option AuthIdentity}
    → ◌≡◌ {A = Result Text (Option AuthIdentity)} (err x) (ok o)
    → A
refused h = cc

both : (a b : Bool) → (not a && b) ≡ true → (a ≡ false) × (b ≡ true)
both a b h = ground arith

filled : (t : Text) → (t == []) ≡ false → t ≢ []
filled t f e = cc (f, (text_beq_iff t []).1 e)

module _ (hmac : Text → Text → Text) (cfg : AuthConfig) (cache : Option ApiKeyCache)
    (store_check : Option (Text → Text → Result Text AuthIdentity)) where
  -- A request that passes without an identity meets a router with no key and no account keys. One that
  -- passes with an identity has presented the configured key, or a key that the account keys accept.
  pub authenticate-IsAuthenticated :
      (header : Text → Text) {o : Option AuthIdentity}
      → authenticate_public_request hmac cfg cache store_check header ≡ ok o
      → IsAuthenticated cfg
          (key_from_request header)
          (by_account hmac cfg cache store_check (key_from_request header) cache)
          o
  unfolding authenticate_public_request
  authenticate-IsAuthenticated header {o} h =
      let raw = key_from_request header in
      elim (Bool-cases (not (cfg.api_key == []) && (raw == cfg.api_key))) [
        | inl t ↦
            let found : ◌≡◌ {A = Result Text (Option AuthIdentity)} (ok (some static_identity))
                (ok o) =
              rw (t, authenticate_public_request) at h in
            let (named, same) = both (cfg.api_key == []) (raw == cfg.api_key) t in
            subst (IsAuthenticated cfg raw (by_account hmac cfg cache store_check raw cache))
              (ok-injective found)
              (inl (filled cfg.api_key named, (text_beq_iff raw cfg.api_key).0 same, refl))
        | inr f ↦ elim (Bool-cases cfg.account_key_auth) [
          | inl t ↦ elim (Bool-cases (raw == [])) [
            | inl u ↦ refused (rw (f, t, u, authenticate_public_request) at h)
            | inr u ↦
                let (i, is, checked) =
                  identified-eq-ok (by_account hmac cfg cache store_check raw cache)
                    (rw (f, t, u, authenticate_public_request) at h) in
                subst (IsAuthenticated cfg raw (by_account hmac cfg cache store_check raw cache))
                  (sym is) (inr (t, filled raw u, checked))
          ]
          | inr g ↦ elim (Bool-cases (cfg.api_key == [])) [
            | inl u ↦
                let found : ◌≡◌ {A = Result Text (Option AuthIdentity)} (ok none) (ok o) =
                  rw (f, g, u, authenticate_public_request) at h in
                subst (IsAuthenticated cfg raw (by_account hmac cfg cache store_check raw cache))
                  (ok-injective found) ((text_beq_iff cfg.api_key []).0 u, g)
            | inr u ↦ refused (rw (f, g, u, authenticate_public_request) at h)
          ]
        ]
      ]
