-- ===== src/Account.antt =====
-- router/internal/account/server.go: the service through which an account manages its keys. A handler
-- returns the calls of the writer and the database after it.
pub mod Keys
pub mod Laws
mod Tests
use aether_code.Base.{
  ℕ, Bool, true, false, ◌&&◌, ◌||◌, not, List, [], ◌∷◌, Option, none, some, Text, codes, ◌==◌,
  text_eq, Result, ok, err, if◌then◌else◌,
}
use aether_code.Text.{trim_space, trim, trim_prefix, split, has_prefix, parse_id}
use aether_code.Store.Provider.{Time}
use aether_code.Store.Database.{Database}
use aether_code.Store.Versions.{api_key_version}
use aether_code.Keys.{ApiKeyMetadata, ApiKeyCreation}
use aether_code.Keys.Lifecycle.{KeyStore, create_api_key, api_keys, disable_api_key, revoke_api_key}
use aether_code.Http.{Write, sets_header, write_json, http_not_found}
use aether_code.Relay.Auth.{bearer_token}

-- What the handlers answer with; `health` has the state and, where it is not empty, the error.
pub data Value : Type 0 where
  failure : Text → Value
  health : Text → Text → Value
  created_key : ApiKeyCreation → Value
  key_list : List ApiKeyMetadata → Value
  key_metadata : ApiKeyMetadata → Value

-- `encoding/json`: the name in a request, `none` on an error, and an answer.
pub record Codec : Type 0 where
  pub decode_name : Text → Option Text
  pub encode : Value → Text

pub record Config : Type 0 where
  pub has_store : Bool
  pub account_service_key : Text
  pub api_key_hash_secret : Text

pub record Request : Type 0 where
  pub method : Text
  pub path : Text
  pub header : Text → Text
  pub body : Text

module _ (codec : Codec) (cfg : Config) where
  unfoldable pub fails : ℕ → Text → List Write
  fails status message = write_json status (codec.encode (failure message))

  -- The account of a request, or the answer of a refusal.
  unfoldable pub authenticated_account : Request → Result (List Write) Text
  authenticated_account r =
      let account = trim_space (r.header (codes "X-Aether-Account-ID")) in
      if not cfg.has_store
      then err (fails 503 (codes "database not configured"))
      else if not (cfg.account_service_key == [])
          && not (bearer_token (r.header (codes "Authorization")) == cfg.account_service_key)
      then err (fails 401 (codes "invalid account service key"))
      else if account == []
      then err (fails 401 (codes "account identity is required"))
      else ok account

  -- `health`
  unfoldable pub serve_health : List Write
  serve_health = write_json 200 (codec.encode (health (codes "ok") []))

  module _ (hmac : Text → Text → Text) (random : Result Text Text) (d : Database) (s : KeyStore d)
      (now : Time) where
    abbrev pub Handled : Type 0
    Handled = List Write × d.Db

    abbrev pub readiness : d.Db → Result Text (ℕ × d.Db) → Handled
    readiness db (err e) = (write_json 503 (codec.encode (health (codes "not_ready") e)), db)
    readiness db (ok (version, db')) =
        (write_json 200 (codec.encode (health (codes "ready") [])), db')

    -- `ready`
    unfoldable pub serve_ready : d.Db → Handled
    serve_ready db = if cfg.has_store then readiness db (api_key_version d s.versions now db) else (
      write_json 503 (codec.encode (health (codes "not_ready") (codes "database not configured"))),
      db,
    )

    abbrev pub created : Result Text ApiKeyCreation × d.Db → Handled
    created (err e, db) = (fails 500 e, db)
    created (ok creation, db) = (write_json 201 (codec.encode (created_key creation)), db)

    abbrev pub post_key : Text → d.Db → Option Text → Handled
    post_key account db none = (fails 400 (codes "invalid JSON body"), db)
    post_key account db (some name) =
        created (create_api_key d s hmac random account name cfg.api_key_hash_secret now db)

    abbrev pub listed : d.Db → Result Text (List ApiKeyMetadata) → Handled
    listed db (err e) = (fails 500 e, db)
    listed db (ok keys) = (write_json 200 (codec.encode (key_list keys)), db)

    abbrev pub for_account : d.Db → Result (List Write) Text → (Text → Handled) → Handled
    for_account db (err refusal) next = (refusal, db)
    for_account db (ok account) next = next account

    -- `apiKeys`
    unfoldable pub serve_api_keys : Request → d.Db → Handled
    serve_api_keys r db = for_account db (authenticated_account r) (λ account.
        if r.method == codes "POST"
        then post_key account db (codec.decode_name r.body)
        else if r.method == codes "GET"
        then listed db (api_keys d s account db)
        else (
          sets_header (codes "Allow") (codes "GET, POST") ∷ fails 405 (codes "method not allowed"),
          db,
        ))

    abbrev pub changed : Result Text ApiKeyMetadata × d.Db → Handled
    changed (err e, db) = (fails 404 (codes "api key not found"), db)
    changed (ok metadata, db) = (write_json 200 (codec.encode (key_metadata metadata)), db)

    abbrev pub change : Text → ℕ → Text → d.Db → Handled
    change account id word db =
        if word == codes "disable"
        then changed (disable_api_key d s account id now db)
        else if word == codes "revoke"
        then changed (revoke_api_key d s account id now db)
        else (fails 404 (codes "not found"), db)

    abbrev pub with_id : Text → Option ℕ → Text → Request → d.Db → Handled
    with_id account none word r db = (fails 400 (codes "invalid api key id"), db)
    with_id account (some id) word r db =
        if r.method == codes "POST" || (r.method == codes "DELETE" && word == codes "revoke")
        then change account id word db
        else (
          sets_header (codes "Allow") (codes "POST, DELETE")
              ∷ fails 405 (codes "method not allowed"),
          db,
        )

    abbrev pub with_parts : Text → List Text → Request → d.Db → Handled
    with_parts account [] r db = (fails 404 (codes "not found"), db)
    with_parts account (first ∷ []) r db = (fails 404 (codes "not found"), db)
    with_parts account (first ∷ word ∷ []) r db =
        if first == []
        then (fails 404 (codes "not found"), db)
        else with_id account (parse_id first) word r db
    with_parts account (first ∷ word ∷ next ∷ rest) r db = (fails 404 (codes "not found"), db)

    -- `apiKeyByID`
    unfoldable pub serve_api_key_by_id : Request → d.Db → Handled
    serve_api_key_by_id r db = for_account db (authenticated_account r) (λ account.
        with_parts account
          (split (trim (trim_prefix r.path (codes "/account/api-keys/")) b'/') b'/') r db)

    -- `Routes`, for a path that `http.ServeMux` has cleaned
    unfoldable pub serve : Request → d.Db → Handled
    serve r db =
        if r.path == codes "/healthz"
        then (serve_health, db)
        else if r.path == codes "/readyz"
        then serve_ready db
        else if r.path == codes "/account/api-keys"
        then serve_api_keys r db
        else if has_prefix r.path (codes "/account/api-keys/")
        then serve_api_key_by_id r db
        else (http_not_found, db)
