-- ===== src/Relay/Auth.antt =====
-- router/internal/app/server.go: who may use the relay and the administration. A header's value is that of
-- `Header.Get`.
pub mod Laws
use aether_code.Base.{
  ℕ, Bool, true, false, ◌&&◌, not, List, [], ◌∷◌, Option, none, some, Text, codes, ◌==◌, text_eq,
  nat_eq, leb, ltb, length, if◌then◌else◌, Result, ok, err,
}
use aether_code.Text.{trim_space, take, drop, equal_fold}
use aether_code.Http.{Write, http_error}
use aether_code.Keys.{AuthIdentity}
use aether_code.Keys.Cache.{ApiKeyCache, validate}

unfoldable pub bearer_token : Text → Text
bearer_token raw =
    let header = trim_space raw in
    if leb 7 (length header) && equal_fold (take 7 header) (codes "Bearer ")
    then trim_space (drop 7 header)
    else []

-- The first of two texts that is not empty.
abbrev pub first_filled : Text → Text → Text
first_filled [] t = t
first_filled (c ∷ s) t = c ∷ s

unfoldable pub key_from_request : (Text → Text) → Text
key_from_request header =
    first_filled (bearer_token (header (codes "Authorization")))
      (trim_space (header (codes "x-api-key")))

pub record AuthConfig : Type 0 where
  pub api_key : Text
  pub admin_key : Text
  pub account_key_auth : Bool
  pub api_key_hash_secret : Text

abbrev pub static_identity : AuthIdentity
static_identity = record {
  source = codes "static_router_api_key";
  account_id = 0;
  account_external_id = [];
  api_key_id = 0;
  api_key_prefix = [];
}

abbrev pub identified : Result Text AuthIdentity → Result Text (Option AuthIdentity)
identified (ok identity) = ok (some identity)
identified (err e) = err e

-- The store's check of a key against its secret, where there is a store, and the key cache, where there
-- is one.
module _ (hmac : Text → Text → Text) (cfg : AuthConfig) (cache : Option ApiKeyCache)
    (store_check : Option (Text → Text → Result Text AuthIdentity)) where
  abbrev pub by_store :
      Text → Option (Text → Text → Result Text AuthIdentity) → Result Text AuthIdentity
  by_store raw none = err (codes "account API key validation is unavailable")
  by_store raw (some check) = check raw cfg.api_key_hash_secret

  abbrev pub by_account : Text → Option ApiKeyCache → Result Text AuthIdentity
  by_account raw none = by_store raw store_check
  by_account raw (some c) =
      if ltb 0 c.version
      then validate hmac c raw cfg.api_key_hash_secret
      else by_store raw store_check

  unfoldable pub authenticate_public_request : (Text → Text) → Result Text (Option AuthIdentity)
  authenticate_public_request header =
      let raw = key_from_request header in
      if not (cfg.api_key == []) && (raw == cfg.api_key)
      then ok (some static_identity)
      else if cfg.account_key_auth
      then if raw == []
        then err (codes "missing relay API key")
        else identified (by_account raw cache)
      else if cfg.api_key == []
      then ok none
      else err (codes "invalid router API key")

-- The answer of a refusal, if the administration key is refused.
unfoldable pub check_admin_auth : AuthConfig → (Text → Text) → Option (List Write)
check_admin_auth cfg header =
    if cfg.admin_key == []
    then some (http_error (codes "ROUTER_ADMIN_KEY is not configured") 403)
    else if key_from_request header == cfg.admin_key
    then none
    else some (http_error (codes "invalid admin key") 401)
