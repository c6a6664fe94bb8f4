-- ===== src/Store/Import.antt =====
-- router/internal/store/platform.go: `ImportLegacyProvidersAsChannels`, which makes a channel of each model
-- of each provider. The count that the code returns beside an error is left out.
pub mod Laws
pub mod Apart
pub mod Twice
use aether_code.Base.{
  ℕ, suc, Bool, true, false, ◌&&◌, ◌||◌, List, [], ◌∷◌, Text, codes, ◌==◌, text_eq, nat_eq, pos,
  ltb, if◌then◌else◌, Result, ok, err, ◌>>=◌,
}
use aether_code.Text.{trim_space}
use aether_code.Store.Provider.{
  Time, Provider, model_list, normalized_endpoint_capabilities, upstream_model,
}
use aether_code.Store.Channel.{ProviderChannel, zero_channel, legacy_secret_ref}
use aether_code.Store.Channel
use aether_code.Store.Database.{Database, Table}
use aether_code.Store.Versions.{bump_config_versions}
use aether_code.Store.Mutations.{Store, channel_names}

-- A provider with a key gives its channel a reference to it.
abbrev pub secret_ref_of : Provider → Text
secret_ref_of p = if trim_space p.api_key == [] then [] else legacy_secret_ref p.id

unfoldable pub imported_channel : Provider → Text → ProviderChannel
imported_channel p model_id = record zero_channel {
  name = p.name;
  legacy_provider_id = p.id;
  provider = p.provider;
  public_model_id = model_id;
  endpoint_capabilities = normalized_endpoint_capabilities p;
  status = p.status;
  priority = p.priority;
  weight = p.weight;
  upstream_base_url = p.base_url;
  upstream_model = upstream_model p model_id;
  upstream_api_key_secret_ref = secret_ref_of p;
  auth_header = p.auth_header;
  auth_prefix = p.auth_prefix;
  headers = p.headers;
  channel_type = p.channel_type;
  relay_format = p.relay_format;
}

-- The condition of the query for a channel that is there already.
abbrev pub is_import_of : Provider → Text → ProviderChannel → Bool
is_import_of p model_id c = c.legacy_provider_id == p.id && c.public_model_id == model_id

abbrev pub is_skipped : Text → Bool
is_skipped model_id = model_id == [] || model_id == codes "*"

module _ (d : Database) (s : Store d) where
  -- The insert, with the hooks that gorm runs before it.
  abbrev pub insert_channel : ProviderChannel → ℕ → d.Db → Result Text (ℕ × d.Db)
  insert_channel c n db = Channel.apply_defaults c >>= λ c1.
      Channel.apply_defaults c1 >>= λ c2. s.channels.create c2 db >>= λ (row, db'). ok (suc n, db')

  -- One round of the inner loop, with the count so far.
  unfoldable pub import_model : Provider → Text → ℕ → d.Db → Result Text (ℕ × d.Db)
  import_model p model_id n db =
      if is_skipped model_id
      then ok (n, db)
      else s.channels.count (is_import_of p model_id) db >>= λ count.
          if ltb 0 count then ok (n, db) else insert_channel (imported_channel p model_id) n db

  unfoldable pub import_models : Provider → List Text → ℕ → d.Db → Result Text (ℕ × d.Db)
  import_models p [] n db = ok (n, db)
  import_models p (m ∷ ms) n db = import_model p m n db >>= λ (n', db'). import_models p ms n' db'

  unfoldable pub import_providers : List Provider → ℕ → d.Db → Result Text (ℕ × d.Db)
  import_providers [] n db = ok (n, db)
  import_providers (p ∷ ps) n db =
      import_models p (model_list p) n db >>= λ (n', db'). import_providers ps n' db'

  abbrev pub bump_if_imported : Time → ℕ × d.Db → Result Text (ℕ × d.Db)
  bump_if_imported now (n, db) =
      if n == 0
      then ok (0, db)
      else bump_config_versions d s.versions channel_names now db >>= λ db'. ok (n, db')

  abbrev pub import_body : List Provider → Time → d.Db → Result Text (ℕ × d.Db)
  import_body ps now db = import_providers ps 0 db >>= bump_if_imported now

  abbrev pub import_found : Time → d.Db → Result Text (List Provider) → Result Text ℕ × d.Db
  import_found now db (err e) = (err e, db)
  import_found now db (ok ps) = d.transaction ℕ (import_body ps now) db

  unfoldable pub import_legacy_providers_as_channels : Time → d.Db → Result Text ℕ × d.Db
  import_legacy_providers_as_channels now db = import_found now db (s.providers.find (λ p. true) db)
