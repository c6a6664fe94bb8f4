-- ===== src/Store/Database/Once.antt =====
-- A row that is stored unless one like it is there, and then read back.
use aether_code.Base.{
  Bool, true, false, List, [], ◌∷◌, ◌++◌, ok, In, In-append, any, inl, inr, ◌⊎◌, ◌≡◌, sym, ap, ◌∙◌,
  subst, arith,
}
use aether_code.Store.Database.{Database, Table, IsTable}

any-In : {A : Type 0} (p : A → Bool) (a : A) (xs : List A) → In a xs → p a ≡ true → any p xs ≡ true
any-In p a [] i t = elim i [ ]
any-In p a (x ∷ xs) (inl e) t = let here : p x ≡ true = sym (ap p e) ∙ t in ground (arith, here)
any-In p a (x ∷ xs) (inr i) t = ground (arith, any-In p a xs i t)

module _ {d : Database} {Row : Type 0} (t : Table d Row) (conflict : Row → Row → Bool)
    (assigned : Row → Row → Type 0) (lawful : IsTable t conflict assigned) where
  -- The row that is read back: one that was there, and then nothing has been stored, or the new one, and
  -- then it is the only one that has been stored.
  abbrev pub Once : Row → d.Db → Row → d.Db → Type 0
  Once row db found db' =
      In found (t.rows db')
      × (((any (conflict row) (t.rows db) ≡ true) × (t.rows db' ≡ t.rows db))
          ⊎ ((any (conflict row) (t.rows db) ≡ false)
              × (t.rows db' ≡ t.rows db ++ found ∷ [])
              × assigned row found))

  pub create-Once :
      (row : Row) (test : Row → Bool) (db db' : d.Db) (found : Row)
      → ((x : Row) → test x ≡ conflict row x)
      → t.create_or_nothing row db ≡ ok db'
      → t.first test db' ≡ ok found
      → Once row db found db' × (test found ≡ true)
  create-Once row test db db' found alike made read =
      let (at, passes) = lawful.first-ok test db' found read in
      elim (lawful.create_or_nothing-ok row db db' made) [
        | inl (there, kept) ↦ ((at, inl (there, kept)), passes)
        | inr (absent, (new, fills, added)) ↦
            elim (In-append found (t.rows db) (new ∷ []) (subst (In found) added at)) [
              | inl old ↦ absurd (
                  clash (
                    sym absent
                    ∙ any-In (conflict row) found (t.rows db) old (sym (alike found) ∙ passes)))
              | inr (inl same) ↦ (
                (
                  at,
                  inr (
                    absent,
                    added ∙ ap (λ (r : Row). t.rows db ++ r ∷ []) (sym same),
                    subst (assigned row) (sym same) fills,
                  ),
                ),
                passes,
              )
              | inr (inr none') ↦ elim none' [ ]
            ]
      ]
    where
      clash : ◌≡◌ {A = Bool} false true → ⊥
      clash e = cc
