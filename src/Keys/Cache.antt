-- ===== src/Keys/Cache.antt =====
-- router/internal/store/platform.go: the cache of active keys and the check of a key against it.
pub mod Laws
pub mod Sync
use aether_code.Base.{
  ℕ, List, [], ◌∷◌, ◌++◌, Text, codes, ◌==◌, text_eq, if◌then◌else◌, lookup, insert, Result, ok,
  err,
}
use aether_code.Text.{or_else}
use aether_code.Store.Provider.{Time}
use aether_code.Keys.{ApiKey, AuthIdentity, is_active, api_key_prefix, validate_api_key_candidates}

pub record ApiKeyCache : Type 0 where
  pub version : ℕ
  pub last_synced_at : Time
  pub by_prefix : List (Text × List ApiKey)

unfoldable pub new_api_key_cache : ApiKeyCache
new_api_key_cache = record { version = 0; last_synced_at = 0; by_prefix = [] }

abbrev pub keys_at : Text → List (Text × List ApiKey) → List ApiKey
keys_at prefix by_prefix = or_else (lookup prefix by_prefix) []

unfoldable pub index_keys : List ApiKey → List (Text × List ApiKey) → List (Text × List ApiKey)
index_keys [] by_prefix = by_prefix
index_keys (key ∷ keys) by_prefix = index_keys keys (
    if is_active key
    then insert key.key_prefix (keys_at key.key_prefix by_prefix ++ key ∷ []) by_prefix
    else by_prefix)

unfoldable pub replace : List ApiKey → ℕ → Time → ApiKeyCache
replace keys version now = record {
  version = version;
  last_synced_at = now;
  by_prefix = index_keys keys [];
}

unfoldable pub validate :
    (Text → Text → Text) → ApiKeyCache → Text → Text → Result Text AuthIdentity
validate hmac c raw secret =
    let prefix = api_key_prefix raw in
    if prefix == []
    then err (codes "api key is required")
    else validate_api_key_candidates hmac raw secret (keys_at prefix c.by_prefix)
