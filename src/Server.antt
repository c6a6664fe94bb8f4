-- ===== src/Server.antt =====
-- router/internal/app/server.go: the probes of the router.
pub mod Laws
mod Tests
use aether_code.Base.{
  ℕ, Bool, List, [], ◌∷◌, Option, none, some, Text, codes, ltb, if◌then◌else◌, Result, ok, err,
}
use aether_code.Text.{or_else}
use aether_code.Store.Provider.{Time}
use aether_code.Store.Cache.{Cache}
use aether_code.Store.Cache.Models.{CacheStats, stats}
use aether_code.Store.Database.{Database, Table}
use aether_code.Store.Versions.{ConfigVersion, provider_version, api_key_version}
use aether_code.Store.Sync.{is_loaded}
use aether_code.Keys.Cache.{ApiKeyCache}
use aether_code.Http.{Write, sets_header, writes_body, write_json}

-- The reports of `ready`. A version that could not be read is 0.
pub data Readiness : Type 0 where
  ready_with : CacheStats → ℕ → Readiness
  not_ready : CacheStats → ℕ → Bool → Readiness
  keys_not_ready : CacheStats → ℕ → ℕ → Bool → Readiness

-- `health`: the status 200 goes out with the body.
unfoldable pub serve_health : List Write
serve_health =
    sets_header (codes "Content-Type") (codes "application/json")
    ∷ writes_body (codes "{\"status\":\"ok\"}")
    ∷ []

module _ (encode : Readiness → Text) (d : Database) (versions : Table d ConfigVersion)
    (now : Time) where
  -- The version that a query has read, and the database behind it.
  abbrev pub version_read : d.Db → Result Text (ℕ × d.Db) → Option ℕ × d.Db
  version_read db (err e) = (none, db)
  version_read db (ok (version, db')) = (some version, db')

  abbrev pub ready_answer : CacheStats → ℕ → List Write
  ready_answer cached version =
      sets_header (codes "Content-Type") (codes "application/json")
      ∷ writes_body (encode (ready_with cached version))
      ∷ []

  abbrev pub cached_version : Option ApiKeyCache → ℕ
  cached_version none = 0
  cached_version (some c) = c.version

  -- The test of the keys, where the router authenticates accounts.
  abbrev pub keys_answer : Option ApiKeyCache → CacheStats → ℕ → Option ℕ × d.Db → List Write × d.Db
  keys_answer keys cached version (key_version, db) =
      if is_loaded key_version (cached_version keys) then (ready_answer cached version, db) else (
        write_json 503 (
            encode (
              keys_not_ready cached version (or_else key_version 0) (ltb 0 (cached_version keys)))),
        db,
      )

  abbrev pub answer : Bool → Option ApiKeyCache → CacheStats → Option ℕ × d.Db → List Write × d.Db
  answer account_key_auth keys cached (version, db) =
      if is_loaded version cached.version
      then if account_key_auth
        then keys_answer keys cached (or_else version 0)
            (version_read db (api_key_version d versions now db))
        else (ready_answer cached (or_else version 0), db)
      else (
        write_json 503 (encode (not_ready cached (or_else version 0) (ltb 0 cached.version))),
        db,
      )

  -- `ready`
  unfoldable pub serve_ready : Bool → Cache → Option ApiKeyCache → d.Db → List Write × d.Db
  serve_ready account_key_auth c keys db =
      answer account_key_auth keys (stats c) (version_read db (provider_version d versions now db))
