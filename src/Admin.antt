-- ===== src/Admin.antt =====
-- router/internal/app: the administration of providers and channels. A handler returns the calls of the
-- writer, the routing cache and the database after it.
pub mod Providers
pub mod Channels
pub mod Status
pub mod Routes
pub mod Effects
pub mod Answers
pub mod Laws
mod Tests
use aether_code.Base.{
  ℕ, zero, suc, Bool, true, false, ◌||◌, List, [], ◌∷◌, map, Option, none, some, Text, codes, ◌==◌,
  text_eq, Result, ok, err, if◌then◌else◌,
}
use aether_code.Text.{parse_uint}
use aether_code.Store.Provider.{Time, Provider, PublicProvider}
use aether_code.Store.Channel.{ProviderChannel}
use aether_code.Store.Channel.Public.{PublicProviderChannel}
use aether_code.Store.Cache.{Cache}
use aether_code.Store.Cache.Models.{CacheStats}
use aether_code.Store.Database.{Database}
use aether_code.Store.Mutations.{Store}
use aether_code.Store.Sync.{reload_cache}
use aether_code.Http.{Write, http_error}
use aether_code.Relay.Auth.{AuthConfig, check_admin_auth}

-- The patterns under `/internal` that `Routes` of router/internal/app/server.go registers.
pub data Endpoint : Type 0 where
  status providers provider_by_id channels channel_by_id : Endpoint

-- What the handlers answer with.
pub data Value : Type 0 where
  provider_list : List PublicProvider → Value
  one_provider : PublicProvider → Value
  channel_list : List PublicProviderChannel → Value
  one_channel : PublicProviderChannel → Value
  synced : CacheStats → Value
  -- the instance, the versions of providers, channels and keys, the cache, and whether it is in sync
  report : Text → ℕ → ℕ → ℕ → CacheStats → Bool → Value

-- `encoding/json` at the types of the administration; `none` is an error.
pub record Codec : Type 0 where
  pub decode_provider : Text → Option Provider
  pub decode_channel : Text → Option ProviderChannel
  pub encode : Value → Text

pub record Request : Type 0 where
  pub method : Text
  pub path : Text
  pub header : Text → Text
  pub body : Text

module _ (getenv : Text → Text) (read_file : Text → Option Text) (d : Database) (s : Store d) where
  abbrev pub Handled : Type 0
  Handled = List Write × Cache × d.Db

  abbrev pub reloaded_then : (Cache → d.Db → Handled) → Result Text ℕ × Cache × d.Db → Handled
  reloaded_then next (err e, c, db) = (http_error e 500, c, db)
  reloaded_then next (ok version, c, db) = next c db

  -- `reloadLocalCache`, and what follows if it succeeds
  unfoldable pub then_reload : Time → (Cache → d.Db → Handled) → Cache → d.Db → Handled
  then_reload now next c db = reloaded_then next (reload_cache getenv read_file d s now c db)

  -- The handler runs if the administration key is right.
  abbrev pub admitted : Cache → d.Db → Option (List Write) → Handled → Handled
  admitted c db none handled = handled
  admitted c db (some refusal) handled = (refusal, c, db)

  unfoldable pub with_admin_auth : AuthConfig → Request → Cache → d.Db → Handled → Handled
  with_admin_auth cfg r c db handled = admitted c db (check_admin_auth cfg r.header) handled
