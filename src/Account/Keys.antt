-- ===== src/Account/Keys.antt =====
-- What the operations on keys do to the keys of other accounts.
use aether_code.Base.{
  ℕ, Bool, false, List, [], ◌∷◌, ◌++◌, Text, ◌==◌, text_eq, nat_eq, Result, ok, err, >>=-eq-ok,
  ok-injective, if◌then◌else◌, Bool-cases, In, In-append_left, inl, inr, ◌≡◌, ◌≢◌, refl, sym, ap,
  ◌∙◌, subst, ==_ne,
}
use aether_code.Text.{trim_space}
use aether_code.Store.Provider.{Time}
use aether_code.Store.Database.{Database, Apart, updated}
use aether_code.Store.Versions.{bump_config_versions}
use aether_code.Store.Versions.Apart.{bump_config_versions-Apart}
use aether_code.Keys.{ApiKey, ApiKeyMetadata, Account}
use aether_code.Keys.Lifecycle.{
  KeyStore, owner, key_names, queried, ensure_account, create_key_body, create_api_key,
  finish_creation, with_secret, new_key, with_status, set_api_key_status,
}
use aether_code.Keys.Lifecycle.Laws.{IsKeyStore, set_api_key_status-Changed}

In-updated_other :
    (p : ApiKey → Bool) (f : ApiKey → ApiKey) (key : ApiKey) (rows : List ApiKey)
    → p key ≡ false
    → In key rows
    → In key (updated p f rows)
In-updated_other p f key [] h i = elim i [ ]
In-updated_other p f key (r ∷ rows) h (inl e) =
    inl (subst (λ (x : ApiKey). key ≡ (if p x then f x else x)) e (rw h refl))
In-updated_other p f key (r ∷ rows) h (inr i) = inr (In-updated_other p f key rows h i)

-- The id of a key is its primary key.
abbrev pub HasDistinctKeyIds : List ApiKey → Type 0
HasDistinctKeyIds rows = (k l : ApiKey) → In k rows → In l rows → k.id ≡ l.id → k ≡ l

module _ (d : Database) (s : KeyStore d) (conflict : ApiKey → ApiKey → Bool)
    (assigned : ApiKey → ApiKey → Type 0) (lawful : IsKeyStore s conflict assigned)
    (accounts_apart : Apart s.accounts s.keys) where
  -- Every key of another account is as it was.
  abbrev pub IsIsolated : Text → d.Db → d.Db → Type 0
  IsIsolated account db db' =
      (key : ApiKey)
      → In key (s.keys.rows db)
      → owner d s db key ≢ account
      → In key (s.keys.rows db')

  pub same-IsIsolated :
      (account : Text) (db db' : d.Db)
      → s.keys.rows db' ≡ s.keys.rows db
      → IsIsolated account db db'
  same-IsIsolated account db db' e key i _ = subst (λ (rows : List ApiKey). In key rows) (sym e) i

  pub set_api_key_status-IsIsolated :
      (account : Text) (id : ℕ) (status : Text) (now : Time) (db : d.Db)
      → HasDistinctKeyIds (s.keys.rows db)
      → trim_space account ≡ account
      → IsIsolated account db (set_api_key_status d s account id status now db).1
  set_api_key_status-IsIsolated account id status now db distinct clean =
      elim (set_api_key_status-Changed d s conflict assigned lawful account id status now db) [
        | inl (e, out) ↦
            same-IsIsolated account db _
              (ap (λ (x : Result Text ApiKeyMetadata × d.Db). s.keys.rows x.1) out)
        | inr (m, _, _, ((mine, at, named, owned), rows, _, _)) ↦ λ key i other.
            subst (λ (rs : List ApiKey). In key rs) (sym rows)
              (In-updated_other (λ k. k.id == id) (with_status status now) key (s.keys.rows db)
                (==_ne key.id id (λ e. other (
                  subst (λ (k : ApiKey). owner d s db k ≡ account)
                    (distinct mine key at i (named ∙ sym e)) (owned ∙ clean))))
                i)
      ]

  ensure_account-keys :
      (raw : Text) (now : Time) (db : d.Db) (account : Account) (db' : d.Db)
      → ensure_account d s raw now db ≡ ok (account, db')
      → s.keys.rows db' ≡ s.keys.rows db
  unfolding ensure_account
  ensure_account-keys raw now db account db' h = elim (Bool-cases (trim_space raw == [])) [
    | inl t ↦ absurd (failed (rw t at h))
    | inr f ↦
        let (db1, made, h1) = >>=-eq-ok (s.accounts.create_or_nothing _ db) _ (rw f at h) in
        let (found, _, h2) = >>=-eq-ok (queried (s.accounts.first _ db1)) _ h1 in
        ap (λ (x : Account × d.Db). s.keys.rows x.1) (sym (ok-injective h2))
        ∙ accounts_apart.create_or_nothing-apart _ db db1 made
  ]
    where
      failed : {e : Text} → ◌≡◌ {A = Result Text (Account × d.Db)} (err e) (ok (account, db')) → ⊥
      failed k = cc

  pub create_key_body-IsIsolated :
      (account external_id : Text) (key : ApiKey) (now : Time) (db : d.Db) (made : ApiKey)
      (db' : d.Db)
      → create_key_body d s external_id key now db ≡ ok (made, db')
      → IsIsolated account db db'
  create_key_body-IsIsolated account external_id key now db made db' h k i _ =
      let ((owned, db1), first, h1) = >>=-eq-ok (ensure_account d s external_id now db) _ h in
      let ((row, db2), second, h2) =
        >>=-eq-ok (s.keys.create (record key { account_id = owned.id }) db1) _ h1 in
      let (db3, third, h3) = >>=-eq-ok (bump_config_versions d s.versions key_names now db2) _ h2 in
      let rows : s.keys.rows db' ≡ s.keys.rows db ++ row ∷ [] =
        ap (λ (x : ApiKey × d.Db). s.keys.rows x.1) (sym (ok-injective h3))
        ∙ bump_config_versions-Apart d s.versions s.keys lawful.versions_apart key_names now db2 db3
            third
        ∙ (lawful.keys_lawful.create-ok _ db1 row db2 second).1
        ∙ ap (λ (rs : List ApiKey). rs ++ row ∷ [])
            (ensure_account-keys external_id now db owned db1 first) in
      subst (λ (rs : List ApiKey). In k rs) (sym rows)
        (In-append_left k (s.keys.rows db) (row ∷ []) i)

  pub finished-IsIsolated :
      (account external_id raw : Text) (db : d.Db) (out : Result Text ApiKey × d.Db)
      → IsIsolated account db out.1
      → IsIsolated account db (finish_creation d s external_id raw out).1
  finished-IsIsolated account external_id raw db (err e, db') h = h
  finished-IsIsolated account external_id raw db (ok key, db') h = h

  pub with_secret-IsIsolated :
      (hmac : Text → Text → Text) (account external_id name hash_secret : Text) (now : Time)
      (db : d.Db) (secret : Result Text Text)
      → IsIsolated account db (with_secret d s hmac external_id name hash_secret now db secret).1
  with_secret-IsIsolated hmac account external_id name hash_secret now db (err e) = λ key i _. i
  with_secret-IsIsolated hmac account external_id name hash_secret now db (ok raw) =
      let key = new_key d s hmac name raw hash_secret now in
      let body = create_key_body d s external_id key now in
      finished-IsIsolated account external_id raw db (d.transaction ApiKey body db)
        (elim (d.transaction_cases ApiKey body db) [
          | inl (made, db', done, e) ↦
              rw e (create_key_body-IsIsolated account external_id key now db made db' done)
          | inr (x, e) ↦ rw e (λ k i _. i)
        ])

  pub create_api_key-IsIsolated :
      (hmac : Text → Text → Text) (random : Result Text Text) (account name hash_secret : Text)
      (now : Time) (db : d.Db)
      → IsIsolated account db (create_api_key d s hmac random account name hash_secret now db).1
  unfolding create_api_key
  create_api_key-IsIsolated hmac random account name hash_secret now db =
      elim (Bool-cases (trim_space account == [])) [
        | inl t ↦ rw t (λ key i _. i)
        | inr f ↦
            rw f (with_secret-IsIsolated hmac account (trim_space account) _ hash_secret now db _)
      ]
