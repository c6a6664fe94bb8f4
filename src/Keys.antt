-- ===== src/Keys.antt =====
-- router/internal/store/platform.go: accounts and their API keys. HMAC-SHA256 in hexadecimal is a parameter.
pub mod Validation
pub mod Cache
pub mod Lifecycle
pub mod Memory
mod Tests
use aether_code.Base.{
  ℕ, zero, suc, leb, Bool, true, false, ◌&&◌, List, [], ◌∷◌, ◌++◌, Option, none, some, Text, codes,
  ◌==◌, text_eq, nat_eq, if◌then◌else◌, length, Result, ok, err,
}
use aether_code.Text.{trim_space, take}
use aether_code.Store.Provider.{Time}

pub record Account : Type 0 where
  pub id : ℕ
  pub external_id : Text
  pub name : Text
  pub status : Text
  pub created_at : Time
  pub updated_at : Time

abbrev pub zero_account : Account
zero_account = record {
  id = 0;
  external_id = [];
  name = [];
  status = [];
  created_at = 0;
  updated_at = 0;
}

abbrev pub status_active : Text
status_active = codes "active"

abbrev pub status_disabled : Text
status_disabled = codes "disabled"

abbrev pub status_revoked : Text
status_revoked = codes "revoked"

-- The account is what the query has preloaded.
pub record ApiKey : Type 0 where
  pub id : ℕ
  pub account_id : ℕ
  pub account : Account
  pub name : Text
  pub key_prefix : Text
  pub key_hash : Text
  pub hash_algorithm : Text
  pub status : Text
  pub last_used_at : Option Time
  pub disabled_at : Option Time
  pub revoked_at : Option Time
  pub created_at : Time
  pub updated_at : Time

pub record ApiKeyMetadata : Type 0 where
  pub id : ℕ
  pub account_id : ℕ
  pub account : Text
  pub name : Text
  pub key_prefix : Text
  pub hash_algorithm : Text
  pub status : Text
  pub last_used_at : Option Time
  pub disabled_at : Option Time
  pub revoked_at : Option Time
  pub created_at : Time
  pub updated_at : Time

pub record ApiKeyCreation : Type 0 where
  pub metadata : ApiKeyMetadata
  pub secret : Text

pub record AuthIdentity : Type 0 where
  pub source : Text
  pub account_id : ℕ
  pub account_external_id : Text
  pub api_key_id : ℕ
  pub api_key_prefix : Text

unfoldable pub metadata_of : ApiKey → ApiKeyMetadata
metadata_of key = record {
  id = key.id;
  account_id = key.account_id;
  account = key.account.external_id;
  name = key.name;
  key_prefix = key.key_prefix;
  hash_algorithm = key.hash_algorithm;
  status = key.status;
  last_used_at = key.last_used_at;
  disabled_at = key.disabled_at;
  revoked_at = key.revoked_at;
  created_at = key.created_at;
  updated_at = key.updated_at;
}

unfoldable pub api_key_prefix : Text → Text
api_key_prefix raw =
    let raw' = trim_space raw in
    if raw' == [] then [] else if leb (length raw') 12 then raw' else take 12 raw'

abbrev pub is_active : ApiKey → Bool
is_active key = key.status == status_active

abbrev pub identity_of : ApiKey → AuthIdentity
identity_of key = record {
  source = codes "account_api_key";
  account_id = key.account_id;
  account_external_id = key.account.external_id;
  api_key_id = key.id;
  api_key_prefix = key.key_prefix;
}

-- `hmac` takes the secret and the message.
module _ (hmac : Text → Text → Text) where
  unfoldable pub hash_api_key : Text → Text → Text
  hash_api_key raw secret = hmac secret (trim_space raw)

  unfoldable pub first_match : Text → List ApiKey → Result Text AuthIdentity
  first_match presented [] = err (codes "invalid api key")
  first_match presented (key ∷ keys) =
      let rest = first_match presented keys in
      if is_active key
      then if presented == key.key_hash then ok (identity_of key) else rest
      else rest

  unfoldable pub validate_api_key_candidates : Text → Text → List ApiKey → Result Text AuthIdentity
  validate_api_key_candidates raw secret keys =
      if trim_space raw == []
      then err (codes "api key is required")
      else first_match (hash_api_key raw secret) keys
