-- ===== src/Store/Versions/Bump.antt =====
-- A bump counts its own version up by one and leaves the others.
use aether_code.Base.{
  ℕ, ◌+◌, Bool, true, false, List, [], ◌∷◌, ◌++◌, Option, none, some, Text, ◌==◌, text_eq,
  text_beq_iff, if◌then◌else◌, Result, ok, err, Result-cases, Bool-cases, inl, inr, ◌≡◌, ◌≢◌, refl,
  sym, ap, ◌∙◌, subst, arith, keep, In, ok-injective, ==_refl, ==_ne, All, some-injective,
}
use aether_code.Text.{trim_space}
use aether_code.Store.Provider.{Time}
use aether_code.Store.Database.{Database, Table, IsTable, QueryError, not_found, failed, updated}
use aether_code.Store.Versions.{
  ConfigVersion, bump_config_version, bump_config_versions, bump_found, created, incremented,
}

-- The version that the first row of a name holds.
pub version_in : Text → List ConfigVersion → Option ℕ
version_in name [] = none
version_in name (r ∷ rs) = if r.name == name then some r.version else version_in name rs

-- One more than the version, and 1 where there is none.
abbrev pub next : Option ℕ → ℕ
next none = 1
next (some n) = n + 1

abbrev pub same_name : ConfigVersion → ConfigVersion → Bool
same_name r s = r.name == s.name

abbrev pub SameRow : ConfigVersion → ConfigVersion → Type 0
SameRow r s = s ≡ r

pub version_in-head :
    (name : Text) (version : ℕ) (now : Time) (rs : List ConfigVersion)
    → version_in name (record { name = name; version = version; updated_at = now } ∷ rs)
      ≡ some version
unfolding version_in
version_in-head name version now rs = rw (==_refl name) refl

pub version_in-tail :
    (name : Text) (r : ConfigVersion) (rs : List ConfigVersion)
    → r.name ≢ name
    → version_in name (r ∷ rs) ≡ version_in name rs
unfolding version_in
version_in-tail name r rs ne = rw (==_ne r.name name ne) refl

version_in-append :
    (m : Text) (s : ConfigVersion) (rs : List ConfigVersion)
    → version_in s.name rs ≡ none
    → version_in m (rs ++ s ∷ []) ≡ (if s.name == m then some s.version else version_in m rs)
unfolding version_in
version_in-append m s [] h = refl
version_in-append m s (r ∷ rs) h = ground (
  arith,
  text_beq_iff r.name s.name,
  text_beq_iff r.name m,
  text_beq_iff s.name m,
  version_in-append m s rs,
)

pub absent :
    (name : Text) (rs : List ConfigVersion)
    → keep (λ r. r.name == name) rs ≡ []
    → version_in name rs ≡ none
unfolding version_in keep
absent name [] h = refl
absent name (r ∷ rs) h = ground (arith, absent name rs)

present :
    (name : Text) (r : ConfigVersion) (rs : List ConfigVersion)
    → In r rs
    → (r.name == name) ≡ true
    → (v : ℕ) × (version_in name rs ≡ some v)
unfolding version_in
present name r [] i t = elim i [ ]
present name r (s ∷ rs) i t = elim (Bool-cases (s.name == name)) [
  | inl e ↦ (s.version, rw e refl)
  | inr f ↦ elim i [
    | inl e ↦ absurd (clash (ap (λ (x : ConfigVersion). x.name == name) e) t f)
    | inr j ↦ let (v, e) = present name r rs j t in (v, rw f e)
  ]
]
  where
    clash : {a b : Bool} → a ≡ b → a ≡ true → b ≡ false → ⊥
    clash e t' f = cc

pub version_in-some :
    (name : Text) (rows : List ConfigVersion) {v : ℕ}
    → version_in name rows ≡ some v
    → (r : ConfigVersion) × In r rows × (r.name ≡ name) × (r.version ≡ v)
unfolding version_in
version_in-some name [] h = absurd (cc)
version_in-some name (r ∷ rows) {v} h = elim (Bool-cases (r.name == name)) [
  | inl t ↦ (r, inl refl, (text_beq_iff r.name name).0 t, some-injective (rw t at h))
  | inr f ↦
      let (q, i, e, same) = version_in-some name rows {v = v} (rw f at h) in (q, inr i, e, same)
]

abbrev raised : Option ℕ → Option ℕ
raised none = none
raised (some v) = some (v + 1)

version_in-updated :
    (name m : Text) (now : Time) (rs : List ConfigVersion)
    → version_in m (updated (λ r. r.name == name) (incremented now) rs)
      ≡ (if name == m then raised (version_in m rs) else version_in m rs)
unfolding version_in
version_in-updated name m now [] = ground arith
version_in-updated name m now (r ∷ rs) = ground (
  arith,
  text_beq_iff r.name name,
  text_beq_iff r.name m,
  text_beq_iff name m,
  version_in-updated name m now rs,
)

module _ (d : Database) (versions : Table d ConfigVersion)
    (lawful : IsTable versions same_name SameRow) where
  -- The version of a name in a state of the database.
  abbrev pub version_at : Text → d.Db → Option ℕ
  version_at m db = version_in m (versions.rows db)

  -- The version of one name is raised in the second state, and the others are as in the first.
  abbrev pub Bumped : Text → d.Db → d.Db → Type 0
  Bumped name db db' =
      (m : Text)
      → version_at m db' ≡ (if name == m then some (next (version_at name db)) else version_at m db)

  create-Bumped :
      (name : Text) (now : Time) (db db' : d.Db)
      → versions.first (λ r. r.name == name) db ≡ err not_found
      → created d versions
          (versions.create (record { name = name; version = 1; updated_at = now }) db)
        ≡ ok db'
      → Bumped name db db'
  create-Bumped name now db db' missing made m =
      let new : ConfigVersion = record { name = name; version = 1; updated_at = now } in
      let gone = absent name (versions.rows db) (lawful.first-not_found _ db missing) in
      elim (Result-cases (versions.create new db)) [
        | inl ((s, db''), e) ↦
            let same : db'' ≡ db' = ok-injective (rw (e) at made) in
            let (kept, rows) = lawful.create-ok new db s db'' e in
            rw (← same, rows, kept, gone) (version_in-append m new (versions.rows db) gone)
        | inr (e, f) ↦ let bad : ◌≡◌ {A = Result Text d.Db} (err e) (ok db') = rw f at made in cc
      ]

  update-Bumped :
      (name : Text) (now : Time) (db db' : d.Db) (r : ConfigVersion)
      → versions.first (λ r'. r'.name == name) db ≡ ok r
      → versions.update (λ r'. r'.name == name) (incremented now) db ≡ ok db'
      → Bumped name db db'
  update-Bumped name now db db' r found made m =
      let (at, named) = lawful.first-ok _ db r found in
      let (v, e) = present name r (versions.rows db) at named in
      rw (lawful.update-ok _ _ db db' made, version_in-updated name m now (versions.rows db))
        (ground (arith, e, text_beq_iff name m))

  found_cases :
      (name : Text) (now : Time) (db db' : d.Db) (o : Result QueryError ConfigVersion)
      → versions.first (λ r. r.name == name) db ≡ o
      → bump_found d versions name now db o ≡ ok db'
      → Bumped name db db'
  found_cases name now db db' (ok r) e made = update-Bumped name now db db' r e made
  found_cases name now db db' (err not_found) e made = create-Bumped name now db db' e made
  found_cases name now db db' (err (failed f)) e made = absurd (clash made)
    where
      clash : ◌≡◌ {A = Result Text d.Db} (err f) (ok db') → ⊥
      clash h = cc

  -- A successful bump raises the version of the trimmed name by one, or starts it at 1, and leaves
  -- every other version as it was; the name is not blank then. The tables answer as their interface
  -- says.
  pub bump_config_version-Bumped :
      (raw : Text) (now : Time) (db db' : d.Db)
      → bump_config_version d versions raw now db ≡ ok db'
      → (trim_space raw ≢ []) × Bumped (trim_space raw) db db'
  unfolding bump_config_version
  bump_config_version-Bumped raw now db db' made =
      let name = trim_space raw in
      elim (Bool-cases (name == [])) [
        | inl t ↦ absurd (clash (rw (t, bump_config_version) at made))
        | inr f ↦ (
          λ e. differ f ((text_beq_iff name []).1 e),
          found_cases name now db db' (versions.first (λ r. r.name == name) db) refl
              (rw (f, bump_config_version) at made),
        )
      ]
    where
      clash : {e : Text} → ◌≡◌ {A = Result Text d.Db} (err e) (ok db') → ⊥
      clash h = cc

      differ : {b : Bool} → b ≡ false → b ≡ true → ⊥
      differ f t = cc

  Bumped-head :
      (name : Text) (db db' : d.Db)
      → Bumped name db db'
      → version_at name db' ≡ some (next (version_at name db))
  Bumped-head name db db' b = b name ∙ taken (==_refl name)
    where
      taken :
          {t : Bool}
          → t ≡ true
          → (if t then some (next (version_at name db)) else version_at name db)
            ≡ some (next (version_at name db))
      taken e = rw e refl

  Bumped-other :
      (name m : Text) (db db' : d.Db)
      → name ≢ m
      → Bumped name db db'
      → version_at m db' ≡ version_at m db
  Bumped-other name m db db' h b = b m ∙ passed (==_ne name m h)
    where
      passed :
          {t : Bool}
          → t ≡ false
          → (if t then some (next (version_at name db)) else version_at m db) ≡ version_at m db
      passed e = rw e refl

  -- The later names of a list, none of which is the given one.
  bump_rest :
      (m : Text) (names : List Text) (now : Time) (db db' : d.Db)
      → All (λ n. trim_space n ≢ m) names
      → bump_config_versions d versions names now db ≡ ok db'
      → version_at m db' ≡ version_at m db
  unfolding bump_config_versions
  bump_rest m [] now db db' h made = ap (version_at m) (sym (ok-injective made))
  bump_rest m (n ∷ names) now db db' h made =
      elim (Result-cases (bump_config_version d versions n now db)) [
        | inl (db1, e) ↦
            bump_rest m names now db1 db' h.1 (rw (e, bump_config_versions) at made)
            ∙ Bumped-other (trim_space n) m db db1 h.0
                ((bump_config_version-Bumped n now db db1 e).1)
        | inr (f, e) ↦
            let bad : ◌≡◌ {A = Result Text d.Db} (err f) (ok db') =
              rw (e, bump_config_versions) at made in
            cc
      ]

  -- Bumping a list of names raises the first one, if none of the others is the same.
  pub bump_config_versions-head :
      (name : Text) (names : List Text) (now : Time) (db db' : d.Db)
      → trim_space name ≡ name
      → All (λ n. trim_space n ≢ name) names
      → bump_config_versions d versions (name ∷ names) now db ≡ ok db'
      → version_at name db' ≡ some (next (version_at name db))
  unfolding bump_config_versions
  bump_config_versions-head name names now db db' clean h made =
      elim (Result-cases (bump_config_version d versions name now db)) [
        | inl (db1, e) ↦
            let bumped = (bump_config_version-Bumped name now db db1 e).1 in
            bump_rest name names now db1 db' h (rw (e, bump_config_versions) at made)
            ∙ Bumped-head name db db1 (subst (λ (x : Text). Bumped x db db1) clean bumped)
        | inr (f, e) ↦
            let bad : ◌≡◌ {A = Result Text d.Db} (err f) (ok db') =
              rw (e, bump_config_versions) at made in
            cc
      ]
