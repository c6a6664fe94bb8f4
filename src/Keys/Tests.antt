-- ===== src/Keys/Tests.antt =====
-- The theorems about API keys at concrete inputs, on a database in memory.
use aether_code.Base.{
  List, [], ◌∷◌, ◌++◌, none, Text, codes, text_eq, nat_eq, text_beq, keep, ok, err, ◌⊎◌, ◌≡◌, ◌≢◌,
  refl,
}
use aether_code.Text.{trim_space, drop_left, drop_right, take}
use aether_code.Store.Memory.{memory}
use aether_code.Keys.Memory.{
  State, same_key, Stored, accounts, keys, keys-IsTable, store, store-IsKeyStore,
}
use aether_code.Keys.{
  Account, ApiKey, ApiKeyMetadata, zero_account, status_active, status_revoked, api_key_prefix,
  hash_api_key, first_match, validate_api_key_candidates, identity_of,
}
use aether_code.Keys.Validation.{
  active_api_keys, api_keys_by_prefix, validate_api_key, Matches,
  validate_api_key_candidates-Matches,
}
use aether_code.Keys.Cache.{replace, validate}
use aether_code.Keys.Cache.Laws.{validate-replace}
use aether_code.Keys.Lifecycle.{set_api_key_status}
use aether_code.Keys.Lifecycle.Laws.{Changed, set_api_key_status-Changed}

abbrev hmac : Text → Text → Text
hmac secret message = secret ++ message

abbrev key : ApiKey
key = record {
  id = 7;
  account_id = 1;
  account = zero_account;
  name = codes "relay key";
  key_prefix = codes "ak_123456789";
  key_hash = codes "sak_1234567890";
  hash_algorithm = codes "hmac-sha256";
  status = status_active;
  last_used_at = none;
  disabled_at = none;
  revoked_at = none;
  created_at = 0;
  updated_at = 0;
}

abbrev account : Account
account = record zero_account { id = 1; external_id = codes "acme" }

abbrev start : State
start = record { accounts = account ∷ []; keys = key ∷ []; versions = [] }

abbrev loaded : List ApiKey
loaded = record key { account = account } ∷ []

-- What evaluating a check unfolds.
key_runs : Unit {0}
unfolding active_api_keys api_keys_by_prefix keep text_beq api_key_prefix take trim_space drop_left
    drop_right hash_api_key first_match validate_api_key_candidates
key_runs = tt

validate-replace_example :
    validate hmac (replace loaded 3 0) (codes " ak_1234567890") (codes "s")
    ≡ validate_api_key (memory State) accounts keys hmac (codes " ak_1234567890") (codes "s") start
validate-replace_example =
    validate-replace (memory State) accounts keys same_key Stored keys-IsTable hmac
      (codes " ak_1234567890") (codes "s") 3 0 start loaded loaded (unfold key_runs in refl)
      (unfold key_runs in refl)

validate_api_key_candidates-Matches_example :
    (trim_space (codes " ak_1234567890") ≢ [])
    × Matches
        (hash_api_key hmac (codes " ak_1234567890") (codes "s"))
        loaded
        (identity_of (record key { account = account }))
validate_api_key_candidates-Matches_example =
    validate_api_key_candidates-Matches hmac (codes " ak_1234567890") (codes "s") loaded
      (unfold key_runs in refl)

set_api_key_status-Changed_example :
    let out = set_api_key_status (memory State) store (codes "acme ") 7 status_revoked 5 start in
    ((e : Text) × (out ≡ (err e, start)))
    ⊎ ((m : ApiKeyMetadata) × (out.0 ≡ ok m)
        × (m.account ≡ trim_space (codes "acme "))
        × Changed
            (memory State)
            store
            same_key
            Stored
            store-IsKeyStore
            (trim_space (codes "acme "))
            7
            status_revoked
            5
            start
            out.1)
set_api_key_status-Changed_example =
    set_api_key_status-Changed (memory State) store same_key Stored store-IsKeyStore (codes "acme ")
      7 status_revoked 5 start
