-- ===== src/Store/Database.antt =====
-- The database that gorm gives to router/internal/store, as an interface: what a transaction and the
-- statements of one table do, in the terms of the rows that the table holds. The source's own code
-- starts above it.
pub mod Once
use aether_code.Base.{
  ℕ, length, Bool, true, false, List, [], ◌∷◌, ◌++◌, Text, if◌then◌else◌, keep, any, In, Result, ok,
  err, ◌≡◌, ◌⊎◌,
}

-- `gorm.ErrRecordNotFound`, or any other error of a query for one row
pub data QueryError : Type 0 where
  not_found : QueryError
  failed : Text → QueryError

pub record Database : Type 1 where
  pub Db : Type 0
  -- `db.Transaction(body)`
  pub transaction : (A : Type 0) → (Db → Result Text (A × Db)) → Db → Result Text A × Db
  -- It commits what the body did, or fails and leaves the database as it was.
  pub transaction_cases :
      (A : Type 0) (body : Db → Result Text (A × Db)) (db : Db)
      → ((a : A) × (db' : Db) × (body db ≡ ok (a, db')) × (transaction A body db ≡ (ok a, db')))
        ⊎ ((e : Text) × (transaction A body db ≡ (err e, db)))

-- The statements of one table. A condition is a test of a row, and an update a function of it.
pub record Table (d : Database) (Row : Type 0) : Type 0 where
  -- The rows, in the order in which queries return them.
  pub rows : d.Db → List Row
  pub first : (Row → Bool) → d.Db → Result QueryError Row
  pub find : (Row → Bool) → d.Db → Result Text (List Row)
  pub count : (Row → Bool) → d.Db → Result Text ℕ
  -- An insert fills in the primary key and a zero time of creation.
  pub create : Row → d.Db → Result Text (Row × d.Db)
  -- `clause.OnConflict{DoNothing: true}`
  pub create_or_nothing : Row → d.Db → Result Text d.Db
  pub save : Row → d.Db → Result Text d.Db
  pub update : (Row → Bool) → (Row → Row) → d.Db → Result Text d.Db
  pub delete : (Row → Bool) → d.Db → Result Text d.Db

abbrev pub updated : {Row : Type 0} → (Row → Bool) → (Row → Row) → List Row → List Row
updated p f [] = []
updated p f (r ∷ rs) = (if p r then f r else r) ∷ updated p f rs

-- What the statements do to the rows when they succeed. `conflict r s` says that `r` and `s` agree on a
-- unique column, and `assigned r s` that `s` is `r` with what an insert fills in.
pub record IsTable {d : Database} {Row : Type 0} (t : Table d Row) (conflict : Row → Row → Bool)
    (assigned : Row → Row → Type 0) : Type 0 where
  pub first-ok :
      (p : Row → Bool) (db : d.Db) (r : Row) → t.first p db ≡ ok r → In r (t.rows db) × (p r ≡ true)
  pub first-not_found :
      (p : Row → Bool) (db : d.Db) → t.first p db ≡ err not_found → keep p (t.rows db) ≡ []
  pub find-ok :
      (p : Row → Bool) (db : d.Db) (rs : List Row) → t.find p db ≡ ok rs → rs ≡ keep p (t.rows db)
  pub count-ok :
      (p : Row → Bool) (db : d.Db) (n : ℕ) → t.count p db ≡ ok n → n ≡ length (keep p (t.rows db))
  pub create-ok :
      (r : Row) (db : d.Db) (s : Row) (db' : d.Db)
      → t.create r db ≡ ok (s, db')
      → assigned r s × (t.rows db' ≡ t.rows db ++ s ∷ [])
  pub create_or_nothing-ok :
      (r : Row) (db db' : d.Db)
      → t.create_or_nothing r db ≡ ok db'
      → (any (conflict r) (t.rows db) ≡ true) × (t.rows db' ≡ t.rows db)
        ⊎ (any (conflict r) (t.rows db) ≡ false)
          × ((s : Row) × assigned r s × (t.rows db' ≡ t.rows db ++ s ∷ []))
  pub update-ok :
      (p : Row → Bool) (f : Row → Row) (db db' : d.Db)
      → t.update p f db ≡ ok db'
      → t.rows db' ≡ updated p f (t.rows db)

-- No statement of the first table changes the rows of the second.
pub record Apart {d : Database} {Row Other : Type 0} (t : Table d Row) (u : Table d Other)
    : Type 0 where
  pub create-apart :
      (r : Row) (db : d.Db) (s : Row) (db' : d.Db)
      → t.create r db ≡ ok (s, db')
      → u.rows db' ≡ u.rows db
  pub create_or_nothing-apart :
      (r : Row) (db db' : d.Db) → t.create_or_nothing r db ≡ ok db' → u.rows db' ≡ u.rows db
  pub save-apart : (r : Row) (db db' : d.Db) → t.save r db ≡ ok db' → u.rows db' ≡ u.rows db
  pub update-apart :
      (p : Row → Bool) (f : Row → Row) (db db' : d.Db)
      → t.update p f db ≡ ok db'
      → u.rows db' ≡ u.rows db
  pub delete-apart :
      (p : Row → Bool) (db db' : d.Db) → t.delete p db ≡ ok db' → u.rows db' ≡ u.rows db
