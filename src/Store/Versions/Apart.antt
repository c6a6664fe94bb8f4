-- ===== src/Store/Versions/Apart.antt =====
-- A bump touches the version table only.
use aether_code.Base.{
  ℕ, List, [], ◌∷◌, Text, ◌==◌, text_eq, Result, ok, err, >>=-eq-ok, ◌≡◌, refl, sym, ap, ◌∙◌,
  ok-injective, Bool-cases, inl, inr,
}
use aether_code.Text.{trim_space}
use aether_code.Store.Provider.{Time}
use aether_code.Store.Database.{Database, Table, Apart, QueryError, not_found, failed}
use aether_code.Store.Versions.{
  ConfigVersion, bump_config_version, bump_config_versions, bump_found, created,
  ensure_config_version, config_version, config_version_found,
}

module _ (d : Database) (versions : Table d ConfigVersion) {Row : Type 0} (other : Table d Row)
    (apart : Apart versions other) where
  created-Apart :
      (row : ConfigVersion) (db db' : d.Db)
      → created d versions (versions.create row db) ≡ ok db'
      → other.rows db' ≡ other.rows db
  created-Apart row db db' h =
      go (versions.create row db) h (λ s db1 e. apart.create-apart row db s db1 e)
    where
      go :
          (r : Result Text (ConfigVersion × d.Db))
          → created d versions r ≡ ok db'
          → ((s : ConfigVersion) (db1 : d.Db) → r ≡ ok (s, db1) → other.rows db1 ≡ other.rows db)
          → other.rows db' ≡ other.rows db
      go (ok (s, db1)) e k = ap other.rows (sym (ok-injective e)) ∙ k s db1 refl
      go (err x) e k = cc

  bump_found-Apart :
      (name : Text) (now : Time) (db db' : d.Db) (q : Result QueryError ConfigVersion)
      → bump_found d versions name now db q ≡ ok db'
      → other.rows db' ≡ other.rows db
  bump_found-Apart name now db db' (ok row) h = apart.update-apart _ _ db db' h
  bump_found-Apart name now db db' (err not_found) h = created-Apart _ db db' h
  bump_found-Apart name now db db' (err (failed e)) h = cc

  bump_config_version-Apart :
      (raw : Text) (now : Time) (db db' : d.Db)
      → bump_config_version d versions raw now db ≡ ok db'
      → other.rows db' ≡ other.rows db
  unfolding bump_config_version
  bump_config_version-Apart raw now db db' h = elim (Bool-cases (trim_space raw == [])) [
    | inl t ↦
        let refused : ◌≡◌ {A = Result Text d.Db} (err _) (ok db') =
          rw (t, bump_config_version) at h in
        cc
    | inr f ↦ bump_found-Apart (trim_space raw) now db db' _ (rw (f, bump_config_version) at h)
  ]

  pub bump_config_versions-Apart :
      (names : List Text) (now : Time) (db db' : d.Db)
      → bump_config_versions d versions names now db ≡ ok db'
      → other.rows db' ≡ other.rows db
  unfolding bump_config_versions
  bump_config_versions-Apart [] now db db' h = ap other.rows (sym (ok-injective h))
  bump_config_versions-Apart (name ∷ names) now db db' h =
      let (db1, e, rest) = >>=-eq-ok (bump_config_version d versions name now db) _ h in
      bump_config_versions-Apart names now db1 db' rest
      ∙ bump_config_version-Apart name now db db1 e

  ensure_config_version-Apart :
      (name : Text) (now : Time) (db db' : d.Db)
      → ensure_config_version d versions name now db ≡ ok db'
      → other.rows db' ≡ other.rows db
  unfolding ensure_config_version
  ensure_config_version-Apart name now db db' h = elim (Bool-cases (trim_space name == [])) [
    | inl t ↦ absurd (failed (rw t at h))
    | inr f ↦ apart.create_or_nothing-apart _ db db' (rw f at h)
  ]
    where
      failed : {e : Text} → ◌≡◌ {A = Result Text d.Db} (err e) (ok db') → ⊥
      failed k = cc

  config_version_found-Apart :
      (name : Text) (now : Time) (db : d.Db) (q : Result QueryError ConfigVersion) (v : ℕ)
      (db' : d.Db)
      → config_version_found d versions name now db q ≡ ok (v, db')
      → other.rows db' ≡ other.rows db
  config_version_found-Apart name now db (ok row) v db' h =
      ap (λ (x : ℕ × d.Db). other.rows x.1) (sym (ok-injective h))
  config_version_found-Apart name now db (err not_found) v db' h =
      let (db1, made, last) = >>=-eq-ok (ensure_config_version d versions name now db) _ h in
      ap (λ (x : ℕ × d.Db). other.rows x.1) (sym (ok-injective last))
      ∙ ensure_config_version-Apart name now db db1 made
  config_version_found-Apart name now db (err (failed e)) v db' h = cc

  -- A query for a version touches the version table only.
  pub config_version-Apart :
      (name : Text) (now : Time) (db : d.Db) (v : ℕ) (db' : d.Db)
      → config_version d versions name now db ≡ ok (v, db')
      → other.rows db' ≡ other.rows db
  unfolding config_version
  config_version-Apart name now db v db' h = config_version_found-Apart name now db _ v db' h
