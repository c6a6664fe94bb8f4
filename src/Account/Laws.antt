-- ===== src/Account/Laws.antt =====
-- The account service keeps the keys of the accounts apart.
use aether_code.Base.{
  ℕ, Bool, ◌&&◌, ◌||◌, not, List, [], ◌∷◌, Option, none, some, Text, codes, ◌==◌, text_eq, nat_eq,
  Result, ok, err, Bool-cases, inl, inr, ◌≡◌, refl,
}
use aether_code.Text.{trim_space, parse_id, has_prefix}
use aether_code.Text.Trim.{trim_space_idem}
use aether_code.Store.Provider.{Time}
use aether_code.Store.Database.{Database, Apart}
use aether_code.Store.Versions.{api_key_version, api_key_config_version_name}
use aether_code.Store.Versions.Apart.{config_version-Apart}
use aether_code.Relay.Auth.{bearer_token}
use aether_code.Keys.{ApiKey, ApiKeyMetadata, ApiKeyCreation}
use aether_code.Keys.Lifecycle.{KeyStore, disable_api_key, revoke_api_key}
use aether_code.Keys.Lifecycle.Laws.{IsKeyStore}
use aether_code.Account.{
  Codec, Config, Request, authenticated_account, for_account, created, post_key, listed, changed,
  change, with_id, with_parts, serve_api_keys, serve_api_key_by_id, serve_ready, serve, Handled,
  readiness,
}
use aether_code.Account.Keys.{
  HasDistinctKeyIds, IsIsolated, same-IsIsolated, set_api_key_status-IsIsolated,
  create_api_key-IsIsolated,
}

module _ (d : Database) (s : KeyStore d) (conflict : ApiKey → ApiKey → Bool)
    (assigned : ApiKey → ApiKey → Type 0) (lawful : IsKeyStore s conflict assigned)
    (accounts_apart : Apart s.accounts s.keys) where
  module _ (codec : Codec) (cfg : Config) (hmac : Text → Text → Text) (random : Result Text Text)
      (now : Time) (db : d.Db) (distinct : HasDistinctKeyIds (s.keys.rows db)) where
    created-IsIsolated :
        (account : Text) (out : Result Text ApiKeyCreation × d.Db)
        → IsIsolated d s conflict assigned lawful accounts_apart account db out.1
        → IsIsolated d s conflict assigned lawful accounts_apart account db
            (created codec cfg hmac random d s now out).1
    created-IsIsolated account (err e, db') h = h
    created-IsIsolated account (ok m, db') h = h

    changed-IsIsolated :
        (account : Text) (out : Result Text ApiKeyMetadata × d.Db)
        → IsIsolated d s conflict assigned lawful accounts_apart account db out.1
        → IsIsolated d s conflict assigned lawful accounts_apart account db
            (changed codec cfg hmac random d s now out).1
    changed-IsIsolated account (err e, db') h = h
    changed-IsIsolated account (ok m, db') h = h

    post_key-IsIsolated :
        (account : Text) (o : Option Text)
        → IsIsolated d s conflict assigned lawful accounts_apart account db
            (post_key codec cfg hmac random d s now account db o).1
    post_key-IsIsolated account none = λ key i _. i
    post_key-IsIsolated account (some name) = created-IsIsolated account _ (
        create_api_key-IsIsolated d s conflict assigned lawful accounts_apart hmac random account
          name _ now db)

    listed-IsIsolated :
        (account : Text) (o : Result Text (List ApiKeyMetadata))
        → IsIsolated d s conflict assigned lawful accounts_apart account db
            (listed codec cfg hmac random d s now db o).1
    listed-IsIsolated account (err e) = λ key i _. i
    listed-IsIsolated account (ok keys) = λ key i _. i

    change-IsIsolated :
        (account : Text) (id : ℕ) (word : Text)
        → trim_space account ≡ account
        → IsIsolated d s conflict assigned lawful accounts_apart account db
            (change codec cfg hmac random d s now account id word db).1
    unfolding disable_api_key revoke_api_key
    change-IsIsolated account id word clean = elim (Bool-cases (word == codes "disable")) [
      | inl t ↦ rw t (
          changed-IsIsolated account _ (
            set_api_key_status-IsIsolated d s conflict assigned lawful accounts_apart account id _
              now db distinct clean))
      | inr f ↦ rw f (elim (Bool-cases (word == codes "revoke")) [
        | inl t ↦ rw t (
            changed-IsIsolated account _ (
              set_api_key_status-IsIsolated d s conflict assigned lawful accounts_apart account id _
                now db distinct clean))
        | inr g ↦ rw g (λ key i _. i)
      ])
    ]

    with_id-IsIsolated :
        (account : Text) (o : Option ℕ) (word : Text) (r : Request)
        → trim_space account ≡ account
        → IsIsolated d s conflict assigned lawful accounts_apart account db
            (with_id codec cfg hmac random d s now account o word r db).1
    with_id-IsIsolated account none word r clean = λ key i _. i
    with_id-IsIsolated account (some id) word r clean =
        elim (Bool-cases
          (r.method == codes "POST" || (r.method == codes "DELETE" && word == codes "revoke"))) [
            | inl t ↦ rw t (change-IsIsolated account id word clean)
            | inr f ↦ rw f (λ key i _. i)
          ]

    with_parts-IsIsolated :
        (account : Text) (parts : List Text) (r : Request)
        → trim_space account ≡ account
        → IsIsolated d s conflict assigned lawful accounts_apart account db
            (with_parts codec cfg hmac random d s now account parts r db).1
    with_parts-IsIsolated account [] r clean = λ key i _. i
    with_parts-IsIsolated account (first ∷ []) r clean = λ key i _. i
    with_parts-IsIsolated account (first ∷ word ∷ []) r clean = elim (Bool-cases (first == [])) [
      | inl t ↦ rw t (λ key i _. i)
      | inr f ↦ rw f (with_id-IsIsolated account (parse_id first) word r clean)
    ]
    with_parts-IsIsolated account (first ∷ word ∷ next ∷ rest) r clean = λ key i _. i

    abbrev account_of : Request → Text
    account_of r = trim_space (r.header (codes "X-Aether-Account-ID"))

    for_account-IsIsolated :
        (r : Request) (next : Text → Handled codec cfg hmac random d s now)
        → IsIsolated d s conflict assigned lawful accounts_apart
            (account_of r)
            db
            (next (account_of r)).1
        → IsIsolated d s conflict assigned lawful accounts_apart
            (account_of r)
            db
            (for_account codec cfg hmac random d s now db
              (authenticated_account codec cfg r)
              next).1
    unfolding authenticated_account
    for_account-IsIsolated r next h = elim (Bool-cases (not cfg.has_store)) [
      | inl t ↦ rw t (λ key i _. i)
      | inr f ↦
          rw f
            (elim (Bool-cases (
              not (cfg.account_service_key == [])
              && not
                  (bearer_token (r.header (codes "Authorization")) == cfg.account_service_key))) [
                    | inl t ↦ rw t (λ key i _. i)
                    | inr g ↦ rw g (elim (Bool-cases (account_of r == [])) [
                      | inl t ↦ rw t (λ key i _. i)
                      | inr k ↦ rw k h
                    ])
                  ])
    ]

    serve_api_keys-IsIsolated :
        (r : Request)
        → IsIsolated d s conflict assigned lawful accounts_apart
            (account_of r)
            db
            (serve_api_keys codec cfg hmac random d s now r db).1
    unfolding serve_api_keys
    serve_api_keys-IsIsolated r =
        for_account-IsIsolated r _ (elim (Bool-cases (r.method == codes "POST")) [
          | inl t ↦ rw t (post_key-IsIsolated (account_of r) _)
          | inr f ↦ rw f (elim (Bool-cases (r.method == codes "GET")) [
            | inl t ↦ rw t (listed-IsIsolated (account_of r) _)
            | inr g ↦ rw g (λ key i _. i)
          ])
        ])

    serve_api_key_by_id-IsIsolated :
        (r : Request)
        → IsIsolated d s conflict assigned lawful accounts_apart
            (account_of r)
            db
            (serve_api_key_by_id codec cfg hmac random d s now r db).1
    unfolding serve_api_key_by_id
    serve_api_key_by_id-IsIsolated r =
        for_account-IsIsolated r _ (with_parts-IsIsolated (account_of r) _ r (trim_space_idem _))

    readiness-IsIsolated :
        (account : Text) (o : Result Text (ℕ × d.Db))
        → ((v : ℕ) (db' : d.Db) → o ≡ ok (v, db') → s.keys.rows db' ≡ s.keys.rows db)
        → IsIsolated d s conflict assigned lawful accounts_apart account db
            (readiness codec cfg hmac random d s now db o).1
    readiness-IsIsolated account (err e) h = λ key i _. i
    readiness-IsIsolated account (ok (v, db')) h =
        same-IsIsolated d s conflict assigned lawful accounts_apart account db db' (h v db' refl)

    serve_ready-IsIsolated :
        (account : Text)
        → IsIsolated d s conflict assigned lawful accounts_apart account db
            (serve_ready codec cfg hmac random d s now db).1
    unfolding serve_ready api_key_version
    serve_ready-IsIsolated account = elim (Bool-cases cfg.has_store) [
      | inl t ↦ rw t (
          readiness-IsIsolated account _ (λ v db' e.
            config_version-Apart d s.versions s.keys lawful.versions_apart
              api_key_config_version_name now db v db' e))
      | inr f ↦ rw f (λ key i _. i)
    ]

    -- Whatever an account asks of the service, every key of another account stays as it was: in the
    -- database before the request, ids of keys are distinct, and the tables answer as their interface says.
    pub serve-IsIsolated :
        (r : Request)
        → IsIsolated d s conflict assigned lawful accounts_apart
            (trim_space (r.header (codes "X-Aether-Account-ID")))
            db
            (serve codec cfg hmac random d s now r db).1
    unfolding serve
    serve-IsIsolated r = elim (Bool-cases (r.path == codes "/healthz")) [
      | inl t ↦ rw t (λ key i _. i)
      | inr f ↦ rw f (elim (Bool-cases (r.path == codes "/readyz")) [
        | inl t ↦ rw t (serve_ready-IsIsolated (account_of r))
        | inr g ↦ rw g (elim (Bool-cases (r.path == codes "/account/api-keys")) [
          | inl t ↦ rw t (serve_api_keys-IsIsolated r)
          | inr h ↦ rw h (elim (Bool-cases (has_prefix r.path (codes "/account/api-keys/"))) [
            | inl t ↦ rw t (serve_api_key_by_id-IsIsolated r)
            | inr k ↦ rw k (λ key i _. i)
          ])
        ])
      ])
    ]
