-- ===== src/Store/Tests/Reload.antt =====
-- The theorems about the import of providers, the disabling of a channel and a tick of the refresh loop at
-- concrete inputs, on a database in memory.
use aether_code.Base.{
  [], ◌∷◌, Option, none, Text, codes, text_eq, nat_eq, text_beq, keep, pos, ok, err, ◌≡◌, refl, sym,
  ◌∙◌, inl, inr, ℕ, arith, lookup, insert,
}
use aether_code.Text.{trim_space, trim, drop_left, drop_right, split_by, to_lower}
use aether_code.Store.Capability.{
  normalize_endpoint_capability, normalize_endpoint_capabilities, normalize_unseen, split_csv,
  compact_strings, default_endpoint_capabilities,
}
use aether_code.Store.Provider.{
  Provider, model_list, normalized_endpoint_capabilities, upstream_model,
}
use aether_code.Store.Channel
use aether_code.Store.Cache.{new_cache, zero_provider}
use aether_code.Store.Versions.{
  config_version, bump_config_version, bump_config_versions, provider_config_version_name,
}
use aether_code.Store.Versions.Bump.{version_in-head}
use aether_code.Store.Mutations.{disable_provider_channel}
use aether_code.Store.Mutations.Laws.{disable_provider_channel-fails}
use aether_code.Store.Import.{
  import_legacy_providers_as_channels, import_providers, import_models, import_model,
  imported_channel,
}
use aether_code.Store.Import.Twice.{IsComplete, import-IsComplete}
use aether_code.Store.Sync.{routing_rows, routing_providers, sync_tick}
use aether_code.Store.Versions.Found.{HasOneVersion}
use aether_code.Store.Sync.Ticks.{IsRefreshed, sync_tick-IsRefreshed}
use aether_code.Store.Memory.{memory}
use aether_code.Store.Memory.Routing.{
  State, versions-IsTable, providers-IsTable, channels-IsTable, store, store-IsImportStore,
}

abbrev row : Provider
row = record zero_provider {
  id = 3;
  name = codes "main";
  provider = codes "openai";
  models = codes "a, *";
  status = pos 1;
}

abbrev start : State
start = record {
  providers = row ∷ [];
  channels = [];
  versions = record { name = provider_config_version_name; version = 4; updated_at = 0 } ∷ [];
}

disable_provider_channel-fails_example :
    (e : Text) × (disable_provider_channel (memory State) store 3 7 start ≡ (err e, start))
disable_provider_channel-fails_example =
    disable_provider_channel-fails (memory State) store 3 7 start

-- What evaluating an import unfolds.
import_runs : Unit {0}
unfolding import_legacy_providers_as_channels import_providers import_models import_model
    imported_channel bump_config_version bump_config_versions trim_space trim drop_left drop_right
    text_beq keep model_list split_csv split_by compact_strings normalize_endpoint_capability
    normalize_endpoint_capabilities normalize_unseen default_endpoint_capabilities to_lower
    normalized_endpoint_capabilities upstream_model Channel.apply_defaults Channel.trimmed
    Channel.filled Channel.is_bad_model_id lookup insert
import_runs = tt

abbrev imported : State
imported = (import_legacy_providers_as_channels (memory State) store 7 start).1

imports : import_legacy_providers_as_channels (memory State) store 7 start ≡ (ok 1, imported)
unfolding import_runs
imports = refl

import-IsComplete_example :
    IsComplete (memory State) store store-IsImportStore start imported
    × ((later : ℕ) (k : ℕ) (db : State)
        → import_legacy_providers_as_channels (memory State) store later imported ≡ (ok k, db)
        → (k ≡ 0) × (db ≡ imported))
import-IsComplete_example =
    import-IsComplete (memory State) store store-IsImportStore 7 start 1 imported imports

abbrev getenv : Text → Text
getenv name = []

abbrev read_file : Text → Option Text
read_file path = none

one_version : HasOneVersion provider_config_version_name start.versions
one_version q r (inl e) (inl e') _ _ = e ∙ sym e'
one_version q r (inl e) (inr i) _ _ = elim i [ ]
one_version q r (inr i) j _ _ = elim i [ ]

asks :
    config_version (memory State) store.versions provider_config_version_name 9 start
    ≡ ok (4, start)
unfolding config_version keep text_beq
asks = refl

lists :
    routing_providers getenv read_file (memory State) store start
    ≡ ok (routing_rows getenv read_file (memory State) store (row ∷ []) [])
unfolding routing_providers keep
lists = refl

sync_tick-IsRefreshed_example :
    IsRefreshed getenv read_file
      (memory State)
      store
      versions-IsTable
      providers-IsTable
      channels-IsTable
      4
      9
      new_cache
      start
      (sync_tick getenv read_file (memory State) store 9 new_cache start)
sync_tick-IsRefreshed_example =
    sync_tick-IsRefreshed getenv read_file (memory State) store versions-IsTable providers-IsTable
      channels-IsTable 9 new_cache start 4 4 start
      (routing_rows getenv read_file (memory State) store (row ∷ []) []) one_version
      (version_in-head provider_config_version_name 4 0 []) (omega arith) asks lists
