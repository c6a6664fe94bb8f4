-- ===== src/Account/Tests.antt =====
-- The theorem about the account service at a concrete request, on a database in memory.
use aether_code.Base.{
  In, text_beq, keep, ◌≢◌, true, [], ◌∷◌, ◌++◌, none, some, Text, codes, ◌==◌, text_eq,
  if◌then◌else◌, ok, inl, inr, sym, refl, ◌∙◌,
}
use aether_code.Text.{trim_space, drop_left, drop_right}
use aether_code.Keys.Lifecycle.{owner}
use aether_code.Store.Memory.{memory}
use aether_code.Keys.{ApiKey, zero_account, status_active}
use aether_code.Keys.Memory.{State, same_key, Stored, store, store-IsKeyStore, accounts-Apart}
use aether_code.Account.{Codec, Config, Request, serve}
use aether_code.Account.Keys.{HasDistinctKeyIds}
use aether_code.Account.Laws.{serve-IsIsolated}

abbrev codec : Codec
codec = record { decode_name = λ t. some t; encode = λ v. codes "{}" }

abbrev cfg : Config
cfg = record { has_store = true; account_service_key = []; api_key_hash_secret = codes "s" }

abbrev hmac : Text → Text → Text
hmac secret message = secret ++ message

abbrev key : ApiKey
key = record {
  id = 7;
  account_id = 1;
  account = zero_account;
  name = codes "relay key";
  key_prefix = codes "ak_123456789";
  key_hash = codes "h";
  hash_algorithm = codes "hmac-sha256";
  status = status_active;
  last_used_at = none;
  disabled_at = none;
  revoked_at = none;
  created_at = 0;
  updated_at = 0;
}

abbrev start : State
start = record {
  accounts =
      record zero_account { id = 1; external_id = codes "acme" }
      ∷ record zero_account { id = 2; external_id = codes "other" }
      ∷ [];
  keys = key ∷ [];
  versions = [];
}

distinct : HasDistinctKeyIds start.keys
distinct k l (inl e) (inl e') _ = e ∙ sym e'
distinct k l (inl e) (inr i) _ = elim i [ ]
distinct k l (inr i) j _ = elim i [ ]

-- Another account tries to revoke the key of `acme`.
abbrev request : Request
request = record {
  method = codes "POST";
  path = codes "/account/api-keys/7/revoke";
  header = λ name. if name == codes "X-Aether-Account-ID" then codes "other" else [];
  body = [];
}

stranger :
    owner (memory State) store start key ≢ trim_space (request.header (codes "X-Aether-Account-ID"))
unfolding keep text_beq trim_space drop_left drop_right
stranger = λ e. cc

serve-IsIsolated_example :
    In key (serve codec cfg hmac (ok []) (memory State) store 9 request start).1.keys
serve-IsIsolated_example =
    serve-IsIsolated (memory State) store same_key Stored store-IsKeyStore accounts-Apart codec cfg
      hmac (ok []) 9 start distinct request key (inl refl) stranger
