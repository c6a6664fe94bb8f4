-- ===== src/Store/Versions.antt =====
-- router/internal/store/platform.go: the configuration versions that tell the other processes that rows
-- have changed.
pub mod Bump
pub mod Apart
pub mod Found
use aether_code.Base.{
  ℕ, ◌+◌, Bool, true, false, List, [], ◌∷◌, Option, none, some, Text, codes, ◌==◌, text_eq,
  if◌then◌else◌, Result, ok, err, ◌>>=◌,
}
use aether_code.Text.{trim_space}
use aether_code.Store.Provider.{Time}
use aether_code.Store.Database.{Database, Table, QueryError, not_found, failed}

abbrev pub api_key_config_version_name : Text
api_key_config_version_name = codes "api_keys"

abbrev pub provider_channel_config_version_name : Text
provider_channel_config_version_name = codes "provider_channels"

abbrev pub provider_config_version_name : Text
provider_config_version_name = codes "providers"

pub record ConfigVersion : Type 0 where
  pub name : Text
  pub version : ℕ
  pub updated_at : Time

abbrev pub incremented : Time → ConfigVersion → ConfigVersion
incremented now row = record row { version = row.version + 1; updated_at = now }

module _ (d : Database) (versions : Table d ConfigVersion) where
  abbrev pub created : Result Text (ConfigVersion × d.Db) → Result Text d.Db
  created (ok (row, db)) = ok db
  created (err e) = err e

  -- What follows the query for the row.
  abbrev pub bump_found : Text → Time → d.Db → Result QueryError ConfigVersion → Result Text d.Db
  bump_found name now db (err not_found) =
      created (versions.create (record { name = name; version = 1; updated_at = now }) db)
  bump_found name now db (err (failed e)) = err e
  bump_found name now db (ok row) = versions.update (λ r. r.name == name) (incremented now) db

  unfoldable pub bump_config_version : Text → Time → d.Db → Result Text d.Db
  bump_config_version raw now db =
      let name = trim_space raw in
      if name == []
      then err (codes "config version name is required")
      else bump_found name now db (versions.first (λ r. r.name == name) db)

  unfoldable pub bump_config_versions : List Text → Time → d.Db → Result Text d.Db
  bump_config_versions [] now db = ok db
  bump_config_versions (name ∷ names) now db =
      bump_config_version name now db >>= λ db'. bump_config_versions names now db'

  unfoldable pub ensure_config_version : Text → Time → d.Db → Result Text d.Db
  ensure_config_version name now db =
      if trim_space name == []
      then err (codes "config version name is required")
      else versions.create_or_nothing (record { name = name; version = 1; updated_at = now }) db

  abbrev pub config_version_found :
      Text → Time → d.Db → Result QueryError ConfigVersion → Result Text (ℕ × d.Db)
  config_version_found name now db (ok row) = ok (row.version, db)
  config_version_found name now db (err not_found) =
      ensure_config_version name now db >>= λ db'. ok (1, db')
  config_version_found name now db (err (failed e)) = err e

  unfoldable pub config_version : Text → Time → d.Db → Result Text (ℕ × d.Db)
  config_version name now db =
      config_version_found name now db (versions.first (λ r. r.name == name) db)

  unfoldable pub provider_version : Time → d.Db → Result Text (ℕ × d.Db)
  unfolding config_version
  provider_version now db = config_version provider_config_version_name now db

  unfoldable pub api_key_version : Time → d.Db → Result Text (ℕ × d.Db)
  unfolding config_version
  api_key_version now db = config_version api_key_config_version_name now db

  unfoldable pub provider_channel_version : Time → d.Db → Result Text (ℕ × d.Db)
  unfolding config_version
  provider_channel_version now db = config_version provider_channel_config_version_name now db
