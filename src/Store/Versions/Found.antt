-- ===== src/Store/Versions/Found.antt =====
-- A query for a configuration version that is stored.
use aether_code.Base.{
  ℕ, List, Text, ◌==◌, text_eq, text_beq_iff, Result, ok, err, ok-injective, In, some, ◌≡◌, refl,
  sym, ap, ◌∙◌,
}
use aether_code.Store.Provider.{Time}
use aether_code.Store.Database.{Database, Table, IsTable, QueryError, not_found, failed}
use aether_code.Store.Versions.{ConfigVersion, config_version, config_version_found}
use aether_code.Store.Versions.Bump.{version_in, version_in-some, absent, same_name, SameRow}

-- The name of a version is its primary key.
abbrev pub HasOneVersion : Text → List ConfigVersion → Type 0
HasOneVersion name rows =
    (q r : ConfigVersion) → In q rows → In r rows → q.name ≡ name → r.name ≡ name → q ≡ r

module _ (d : Database) (versions : Table d ConfigVersion)
    (versions_lawful : IsTable versions same_name SameRow) where
  -- A query for a version that is there returns it and changes nothing.
  pub config_version-found :
      (name : Text) (now : Time) (db : d.Db) (v w : ℕ) (db' : d.Db)
      → HasOneVersion name (versions.rows db)
      → version_in name (versions.rows db) ≡ some v
      → config_version d versions name now db ≡ ok (w, db')
      → (w ≡ v) × (db' ≡ db)
  unfolding config_version
  config_version-found name now db v w db' one there h =
      go (versions.first (λ r. r.name == name) db) refl h
    where
      go :
          (q : Result QueryError ConfigVersion)
          → versions.first (λ r. r.name == name) db ≡ q
          → config_version_found d versions name now db q ≡ ok (w, db')
          → (w ≡ v) × (db' ≡ db)
      go (ok r) e k =
          let (i, named) = versions_lawful.first-ok _ db r e in
          let (q, j, at, held) = version_in-some name _ there in
          let same = one r q i j ((text_beq_iff r.name name).0 named) at in
          (
            ap (λ (x : ℕ × d.Db). x.0) (sym (ok-injective k))
                ∙ ap (λ (x : ConfigVersion). x.version) same
                ∙ held,
            ap (λ (x : ℕ × d.Db). x.1) (sym (ok-injective k)),
          )
      go (err not_found) e k =
          cc (sym there ∙ absent name (versions.rows db) (versions_lawful.first-not_found _ db e))
      go (err (failed x)) e k = cc
