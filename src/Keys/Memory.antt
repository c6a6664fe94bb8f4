-- ===== src/Keys/Memory.antt =====
-- The tables of the accounts and their keys in memory, for the theorems about them at concrete inputs.
use aether_code.Base.{Bool, List, ◌==◌, text_eq, nat_eq, ◌≡◌, refl}
use aether_code.Store.Database.{Table, IsTable, Apart}
use aether_code.Store.Versions.{ConfigVersion}
use aether_code.Store.Versions.Bump.{same_name, SameRow}
use aether_code.Store.Memory.{memory, table, table-IsTable, table-Apart}
use aether_code.Keys.{Account, ApiKey}
use aether_code.Keys.Lifecycle.{KeyStore}
use aether_code.Keys.Lifecycle.Laws.{IsKeyStore}

pub record State : Type 0 where
  pub accounts : List Account
  pub keys : List ApiKey
  pub versions : List ConfigVersion

abbrev pub put_keys : List ApiKey → State → State
put_keys rs s = record s { keys = rs }

abbrev pub put_versions : List ConfigVersion → State → State
put_versions rs s = record s { versions = rs }

abbrev pub same_key : ApiKey → ApiKey → Bool
same_key k l = k.id == l.id

abbrev pub same_account : Account → Account → Bool
same_account a b = a.external_id == b.external_id

-- An insert stores the row as it is.
abbrev pub Stored : ApiKey → ApiKey → Type 0
Stored k l = l ≡ k

abbrev pub accounts : Table (memory State) Account
accounts =
    table (λ (s : State). s.accounts) (λ rs s. record s { accounts = rs }) same_account (λ s a. a)

abbrev pub keys : Table (memory State) ApiKey
keys = table (λ (s : State). s.keys) put_keys same_key (λ s k. k)

abbrev pub versions : Table (memory State) ConfigVersion
versions = table (λ (s : State). s.versions) put_versions same_name (λ s r. r)

pub keys-IsTable : IsTable keys same_key Stored
keys-IsTable =
    table-IsTable (λ (s : State). s.keys) put_keys same_key (λ s k. k) Stored (λ rs s. refl)
      (λ s k. refl)

abbrev pub store : KeyStore (memory State)
store = record { accounts = accounts; keys = keys; versions = versions }

pub store-IsKeyStore : IsKeyStore store same_key Stored
store-IsKeyStore = record {
  keys_lawful = keys-IsTable;
  versions_lawful =
      table-IsTable (λ (s : State). s.versions) put_versions same_name (λ s r. r) SameRow
        (λ rs s. refl) (λ s r. refl);
  keys_apart =
      table-Apart (λ (s : State). s.keys) put_keys same_key (λ s k. k) versions (λ rs s. refl);
  versions_apart =
      table-Apart (λ (s : State). s.versions) put_versions same_name (λ s r. r) keys (λ rs s. refl);
}

pub accounts-Apart : Apart accounts keys
accounts-Apart =
    table-Apart (λ (s : State). s.accounts) (λ rs s. record s { accounts = rs }) same_account
      (λ s a. a) keys (λ rs s. refl)
