-- ===== src/Store/Memory/Routing.antt =====
-- The tables of the routing in memory, for the theorems about the store at concrete inputs.
use aether_code.Base.{Bool, List, ◌==◌, nat_eq, ◌≡◌, refl, ap}
use aether_code.Store.Provider.{Provider}
use aether_code.Store.Channel.{ProviderChannel}
use aether_code.Store.Database.{Table, IsTable}
use aether_code.Store.Versions.{ConfigVersion}
use aether_code.Store.Versions.Bump.{same_name, SameRow}
use aether_code.Store.Mutations.{Store}
use aether_code.Store.Mutations.Laws.{IsStore}
use aether_code.Store.Import.Twice.{IsImportStore}
use aether_code.Store.Memory.{memory, table, table-IsTable, table-Apart}

pub record State : Type 0 where
  pub providers : List Provider
  pub channels : List ProviderChannel
  pub versions : List ConfigVersion

abbrev pub put_versions : List ConfigVersion → State → State
put_versions rs s = record s { versions = rs }

abbrev pub put_providers : List Provider → State → State
put_providers rs s = record s { providers = rs }

abbrev pub put_channels : List ProviderChannel → State → State
put_channels rs s = record s { channels = rs }

abbrev pub versions : Table (memory State) ConfigVersion
versions = table (λ s. s.versions) put_versions same_name (λ s r. r)

pub versions-IsTable : IsTable versions same_name SameRow
versions-IsTable =
    table-IsTable (λ (s : State). s.versions) put_versions same_name (λ s r. r) SameRow
      (λ rs s. refl) (λ s r. refl)

abbrev pub same_provider : Provider → Provider → Bool
same_provider p q = p.id == q.id

abbrev pub same_channel : ProviderChannel → ProviderChannel → Bool
same_channel c d = c.id == d.id

-- An insert stores the row as it is.
abbrev pub Stored : {Row : Type 0} → Row → Row → Type 0
Stored r s = s ≡ r

abbrev pub providers : Table (memory State) Provider
providers = table (λ s. s.providers) put_providers same_provider (λ s r. r)

abbrev pub channels : Table (memory State) ProviderChannel
channels = table (λ s. s.channels) put_channels same_channel (λ s r. r)

pub providers-IsTable : IsTable providers same_provider Stored
providers-IsTable =
    table-IsTable (λ (s : State). s.providers) put_providers same_provider (λ s r. r) Stored
      (λ rs s. refl) (λ s r. refl)

pub channels-IsTable : IsTable channels same_channel Stored
channels-IsTable =
    table-IsTable (λ (s : State). s.channels) put_channels same_channel (λ s r. r) Stored
      (λ rs s. refl) (λ s r. refl)

abbrev pub store : Store (memory State)
store = record { providers = providers; channels = channels; versions = versions }

pub store-IsStore : IsStore store
store-IsStore = record {
  versions_lawful = versions-IsTable;
  providers_apart =
      table-Apart (λ (s : State). s.providers) put_providers same_provider (λ s r. r) versions
        (λ rs s. refl);
  channels_apart =
      table-Apart (λ (s : State). s.channels) put_channels same_channel (λ s r. r) versions
        (λ rs s. refl);
}

pub store-IsImportStore : IsImportStore store same_channel Stored same_provider Stored
store-IsImportStore = record {
  channels_lawful = channels-IsTable;
  providers_lawful = providers-IsTable;
  kept = λ c c' e. (
    ap (λ (x : ProviderChannel). x.legacy_provider_id) e,
    ap (λ (x : ProviderChannel). x.public_model_id) e,
  );
  channels_apart =
      table-Apart (λ (s : State). s.channels) put_channels same_channel (λ s r. r) providers
        (λ rs s. refl);
  versions_apart_channels =
      table-Apart (λ (s : State). s.versions) put_versions same_name (λ s r. r) channels
        (λ rs s. refl);
  versions_apart_providers =
      table-Apart (λ (s : State). s.versions) put_versions same_name (λ s r. r) providers
        (λ rs s. refl);
}
