-- ===== src/Keys/Lifecycle.antt =====
-- router/internal/store/platform.go: the creation, listing, disabling and revocation of keys. The random
-- bytes and their base64 text are parameters.
pub mod Laws
use aether_code.Base.{
  ℕ, Bool, true, false, ◌&&◌, List, [], ◌∷◌, ◌++◌, map, Option, none, some, Text, codes, ◌==◌,
  text_eq, nat_eq, if◌then◌else◌, Result, ok, err, ◌>>=◌,
}
use aether_code.Text.{trim_space}
use aether_code.Store.Provider.{Time}
use aether_code.Store.Database.{Database, Table, QueryError, not_found, failed}
use aether_code.Store.Versions.{ConfigVersion, bump_config_versions, api_key_config_version_name}
use aether_code.Keys.{
  Account, zero_account, ApiKey, ApiKeyMetadata, ApiKeyCreation, metadata_of, status_active,
  status_disabled, status_revoked, api_key_prefix, hash_api_key,
}
use aether_code.Keys.Validation.{account_at, preload}

-- The tables that the keys use.
pub record KeyStore (d : Database) : Type 0 where
  pub accounts : Table d Account
  pub keys : Table d ApiKey
  pub versions : Table d ConfigVersion

abbrev pub key_names : List Text
key_names = api_key_config_version_name ∷ []

abbrev pub queried : {A : Type 0} → Result QueryError A → Result Text A
queried (ok a) = ok a
queried (err not_found) = err (codes "record not found")
queried (err (failed e)) = err e

-- `generateAPIKeySecret`, given the text of the random bytes
unfoldable pub generate_api_key_secret : Result Text Text → Result Text Text
generate_api_key_secret random = random >>= λ text. ok (codes "ak_" ++ text)

abbrev pub name_or_default : Text → Text
name_or_default name = if trim_space name == [] then codes "relay key" else trim_space name

-- The updates of `setAPIKeyStatus`.
unfoldable pub with_status : Text → Time → ApiKey → ApiKey
with_status status now key = record key {
  status = status;
  updated_at = now;
  disabled_at = if status == status_disabled then some now else key.disabled_at;
  revoked_at = if status == status_revoked then some now else key.revoked_at;
}

module _ (d : Database) (s : KeyStore d) where
  unfoldable pub ensure_account : Text → Time → d.Db → Result Text (Account × d.Db)
  ensure_account raw now db =
      let external_id = trim_space raw in
      if external_id == []
      then err (codes "account is required")
      else s.accounts.create_or_nothing
          (record {
            id = 0;
            external_id = external_id;
            name = external_id;
            status = status_active;
            created_at = now;
            updated_at = now;
          })
          db
        >>= λ db1. queried (s.accounts.first (λ a. a.external_id == external_id) db1) >>= λ account.
            ok (account, db1)

  abbrev pub new_key : (Text → Text → Text) → Text → Text → Text → Time → ApiKey
  new_key hmac name raw hash_secret now = record {
    id = 0;
    account_id = 0;
    account = zero_account;
    name = name;
    key_prefix = api_key_prefix raw;
    key_hash = hash_api_key hmac raw hash_secret;
    hash_algorithm = codes "hmac-sha256";
    status = status_active;
    last_used_at = none;
    disabled_at = none;
    revoked_at = none;
    created_at = now;
    updated_at = now;
  }

  abbrev pub create_key_body : Text → ApiKey → Time → d.Db → Result Text (ApiKey × d.Db)
  create_key_body external_id key now db = ensure_account external_id now db >>= λ (account, db1).
      s.keys.create (record key { account_id = account.id }) db1 >>= λ (created, db2).
      bump_config_versions d s.versions key_names now db2 >>= λ db3. ok (created, db3)

  abbrev pub finish_creation :
      Text → Text → Result Text ApiKey × d.Db → Result Text ApiKeyCreation × d.Db
  finish_creation external_id raw (err e, db) = (err e, db)
  finish_creation external_id raw (ok key, db) = (
    ok (record { metadata = record (metadata_of key) { account = external_id }; secret = raw }),
    db,
  )

  abbrev pub with_secret :
      (Text → Text → Text)
      → Text
      → Text
      → Text
      → Time
      → d.Db
      → Result Text Text
      → Result Text ApiKeyCreation × d.Db
  with_secret hmac external_id name hash_secret now db (err e) = (err e, db)
  with_secret hmac external_id name hash_secret now db (ok raw) = finish_creation external_id raw (
      d.transaction ApiKey (create_key_body external_id (new_key hmac name raw hash_secret now) now)
        db)

  unfoldable pub create_api_key :
      (Text → Text → Text)
      → Result Text Text
      → Text
      → Text
      → Text
      → Time
      → d.Db
      → Result Text ApiKeyCreation × d.Db
  create_api_key hmac random account name hash_secret now db =
      if trim_space account == []
      then (err (codes "account is required"), db)
      else with_secret hmac (trim_space account) (name_or_default name) hash_secret now db
          (generate_api_key_secret random)

  -- The external id of the account of a key.
  abbrev pub owner : d.Db → ApiKey → Text
  owner db key = (account_at key.account_id (s.accounts.rows db)).external_id

  unfoldable pub api_keys : Text → d.Db → Result Text (List ApiKeyMetadata)
  api_keys raw db =
      let external_id = trim_space raw in
      if external_id == []
      then err (codes "account is required")
      else s.keys.find (λ key. owner db key == external_id) db >>= λ found. ok (
          map
            (λ key. record (metadata_of (preload (s.accounts.rows db) key)) {
              account = external_id;
            })
            found)

  abbrev pub set_status_body : Text → ℕ → Text → Time → d.Db → Result Text (ApiKey × d.Db)
  set_status_body external_id id status now db =
      queried (s.keys.first (λ key. key.id == id && (owner db key == external_id)) db) >>= λ key.
      s.keys.update (λ k. k.id == key.id) (with_status status now) db >>= λ db1.
      queried (s.keys.first (λ k. k.id == key.id) db1) >>= λ updated.
      bump_config_versions d s.versions key_names now db1 >>= λ db2.
      ok (preload (s.accounts.rows db1) updated, db2)

  abbrev pub finish_status : Text → Result Text ApiKey × d.Db → Result Text ApiKeyMetadata × d.Db
  finish_status external_id (err e, db) = (err e, db)
  finish_status external_id (ok key, db) =
      (ok (record (metadata_of key) { account = external_id }), db)

  unfoldable pub set_api_key_status :
      Text → ℕ → Text → Time → d.Db → Result Text ApiKeyMetadata × d.Db
  set_api_key_status raw id status now db =
      if trim_space raw == []
      then (err (codes "account is required"), db)
      else finish_status (trim_space raw)
          (d.transaction ApiKey (set_status_body (trim_space raw) id status now) db)

  unfoldable pub disable_api_key : Text → ℕ → Time → d.Db → Result Text ApiKeyMetadata × d.Db
  disable_api_key account id now db = set_api_key_status account id status_disabled now db

  unfoldable pub revoke_api_key : Text → ℕ → Time → d.Db → Result Text ApiKeyMetadata × d.Db
  revoke_api_key account id now db = set_api_key_status account id status_revoked now db
