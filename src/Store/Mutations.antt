-- ===== src/Store/Mutations.antt =====
-- router/internal/store: the writes of providers and channels. Each is one transaction that ends with a
-- bump of the configuration versions. gorm runs the `BeforeSave` and `BeforeCreate` hooks of a row that
-- it inserts, `BeforeSave` of a row that it saves, and, for `Model(&Row{}).Updates(...)`, `BeforeSave` of
-- that empty row.
pub mod Laws
use aether_code.Base.{
  ℕ, Bool, true, false, List, [], ◌∷◌, Text, ◌==◌, nat_eq, Result, ok, err, ◌>>=◌,
}
use aether_code.Store.Provider.{Time, Provider, status_disabled}
use aether_code.Store.Provider
use aether_code.Store.Channel.{ProviderChannel, zero_channel}
use aether_code.Store.Channel
use aether_code.Store.Database.{Database, Table, QueryError, not_found, failed}
use aether_code.Store.Versions.{
  ConfigVersion, bump_config_versions, provider_config_version_name,
  provider_channel_config_version_name,
}

-- The tables of the store.
pub record Store (d : Database) : Type 0 where
  pub providers : Table d Provider
  pub channels : Table d ProviderChannel
  pub versions : Table d ConfigVersion

abbrev pub provider_names : List Text
provider_names = provider_config_version_name ∷ []

abbrev pub channel_names : List Text
channel_names = provider_config_version_name ∷ provider_channel_config_version_name ∷ []

module _ (d : Database) (s : Store d) where
  -- A statement, then the bump.
  unfoldable pub then_bump :
      {A : Type 0}
      → List Text
      → Time
      → (d.Db → Result Text (A × d.Db))
      → d.Db
      → Result Text (A × d.Db)
  then_bump names now statement db = statement db >>= λ (a, db1).
      bump_config_versions d s.versions names now db1 >>= λ db2. ok (a, db2)

  abbrev pub bumping :
      (A : Type 0)
      → List Text
      → Time
      → (d.Db → Result Text (A × d.Db))
      → d.Db
      → Result Text A × d.Db
  bumping A names now statement db = d.transaction A (then_bump names now statement) db

  abbrev pub unit_of : Result Text d.Db → Result Text (Unit {0} × d.Db)
  unit_of (ok db) = ok (tt, db)
  unit_of (err e) = err e

  abbrev create_provider_statement : Provider → d.Db → Result Text (Provider × d.Db)
  create_provider_statement p db =
      s.providers.create (Provider.apply_defaults (Provider.apply_defaults p)) db

  unfoldable pub create_provider : Provider → Time → d.Db → Result Text Provider × d.Db
  create_provider p now db = bumping Provider provider_names now (create_provider_statement p) db

  unfoldable pub save_provider : Provider → Time → d.Db → Result Text (Unit {0}) × d.Db
  save_provider p now db =
      bumping Unit provider_names now
        (λ db1. unit_of (s.providers.save (Provider.apply_defaults p) db1)) db

  unfoldable pub delete_provider : ℕ → Time → d.Db → Result Text (Unit {0}) × d.Db
  delete_provider id now db =
      bumping Unit provider_names now (λ db1. unit_of (s.providers.delete (λ p. p.id == id) db1)) db

  unfoldable pub create_provider_channel :
      ProviderChannel → Time → d.Db → Result Text ProviderChannel × d.Db
  create_provider_channel c now db =
      bumping ProviderChannel channel_names now
        (λ db1. Channel.apply_defaults c >>= λ c1.
          Channel.apply_defaults c1 >>= λ c2. s.channels.create c2 db1)
        db

  unfoldable pub save_provider_channel :
      ProviderChannel → Time → d.Db → Result Text (Unit {0}) × d.Db
  save_provider_channel c now db =
      bumping Unit channel_names now
        (λ db1. Channel.apply_defaults c >>= λ c1. unit_of (s.channels.save c1 db1)) db

  abbrev pub disable_statement : ℕ → Time → d.Db → Result Text (Unit {0} × d.Db)
  disable_statement id now db = Channel.apply_defaults zero_channel >>= λ _. unit_of (
      s.channels.update (λ c. c.id == id)
        (λ c. record c { status = status_disabled; updated_at = now }) db)

  unfoldable pub disable_provider_channel : ℕ → Time → d.Db → Result Text (Unit {0}) × d.Db
  disable_provider_channel id now db = bumping Unit channel_names now (disable_statement id now) db

  unfoldable pub delete_provider_channel : ℕ → Time → d.Db → Result Text (Unit {0}) × d.Db
  delete_provider_channel id now db =
      bumping Unit channel_names now (λ db1. unit_of (s.channels.delete (λ c. c.id == id) db1)) db

-- A write of the routing configuration.
pub data Mutation : Type 0 where
  creates_provider saves_provider : Provider → Mutation
  deletes_provider : ℕ → Mutation
  creates_channel saves_channel : ProviderChannel → Mutation
  disables_channel deletes_channel : ℕ → Mutation

abbrev succeeded : {A : Type 0} → Result Text A → Bool
succeeded (ok a) = true
succeeded (err e) = false

-- Whether the write succeeded, and the database after it.
unfoldable pub mutate : (d : Database) → Store d → Mutation → Time → d.Db → Bool × d.Db
mutate d s (creates_provider p) now db =
    let (r, db') = create_provider d s p now db in (succeeded r, db')
mutate d s (saves_provider p) now db =
    let (r, db') = save_provider d s p now db in (succeeded r, db')
mutate d s (deletes_provider id) now db =
    let (r, db') = delete_provider d s id now db in (succeeded r, db')
mutate d s (creates_channel c) now db =
    let (r, db') = create_provider_channel d s c now db in (succeeded r, db')
mutate d s (saves_channel c) now db =
    let (r, db') = save_provider_channel d s c now db in (succeeded r, db')
mutate d s (disables_channel id) now db =
    let (r, db') = disable_provider_channel d s id now db in (succeeded r, db')
mutate d s (deletes_channel id) now db =
    let (r, db') = delete_provider_channel d s id now db in (succeeded r, db')
