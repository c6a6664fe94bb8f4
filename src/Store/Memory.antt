-- ===== src/Store/Memory.antt =====
-- A database in memory: gorm's tables as lists, for the theorems about the store at concrete inputs.
pub mod Routing
use aether_code.Base.{
  length, Bool, true, false, List, [], ◌∷◌, ◌++◌, Text, subst, keep, not, any, Bool-cases, In,
  In-keep, Result, ok, err, inl, inr, ◌⊎◌, ◌≡◌, refl, sym, ap, ◌∙◌, ok-injective,
}
use aether_code.Store.Database.{Database, Table, IsTable, Apart, QueryError, not_found, updated}

abbrev pub commit : {A S : Type 0} → S → Result Text (A × S) → Result Text A × S
commit s (ok (a, s')) = (ok a, s')
commit s (err e) = (err e, s)

pub commit_cases :
    {A S : Type 0} (s : S) (r : Result Text (A × S))
    → ((a : A) × (s' : S) × (r ≡ ok (a, s')) × (commit s r ≡ (ok a, s')))
      ⊎ ((e : Text) × (commit s r ≡ (err e, s)))
commit_cases s (ok (a, s')) = inl (a, s', refl, refl)
commit_cases s (err e) = inr (e, refl)

abbrev pub memory : Type 0 → Database
memory S = record {
  Db = S;
  transaction = λ A body s. commit s (body s);
  transaction_cases = λ A body s. commit_cases s (body s);
}

abbrev pub first_of : {Row : Type 0} → List Row → Result QueryError Row
first_of [] = err not_found
first_of (r ∷ rs) = ok r

pub first_of-ok : {Row : Type 0} (rs : List Row) {r : Row} → first_of rs ≡ ok r → In r rs
first_of-ok [] h = cc
first_of-ok {Row} (r ∷ rs) h = inl (sym (ok-injective h))

pub first_of-not_found : {Row : Type 0} (rs : List Row) → first_of rs ≡ err not_found → rs ≡ []
first_of-not_found [] h = refl
first_of-not_found (r ∷ rs) h = cc

-- The part of the state that holds the rows of one table, with what a unique column refuses and the
-- primary key that an insert assigns.
module _ {S Row : Type 0} (get : S → List Row) (put : List Row → S → S)
    (conflict : Row → Row → Bool) (assign : S → Row → Row) where
  abbrev pub insert_unless : Bool → Row → S → Result Text S
  insert_unless true r s = ok s
  insert_unless false r s = ok (put (get s ++ assign s r ∷ []) s)

  abbrev pub table : Table (memory S) Row
  table = record {
    rows = get;
    first = λ p s. first_of (keep p (get s));
    find = λ p s. ok (keep p (get s));
    count = λ p s. ok (length (keep p (get s)));
    create = λ r s. ok (assign s r, put (get s ++ assign s r ∷ []) s);
    create_or_nothing = λ r s. insert_unless (any (conflict r) (get s)) r s;
    save = λ r s. ok (put (updated (conflict r) (λ _. r) (get s)) s);
    update = λ p f s. ok (put (updated p f (get s)) s);
    delete = λ p s. ok (put (keep (λ r. not (p r)) (get s)) s);
  }

  pub table-IsTable :
      (assigned : Row → Row → Type 0)
      → ((rs : List Row) (s : S) → get (put rs s) ≡ rs)
      → ((s : S) (r : Row) → assigned r (assign s r))
      → IsTable table conflict assigned
  table-IsTable assigned got right = record {
    first-ok = λ p s r h. In-keep p r (get s) (first_of-ok (keep p (get s)) h);
    first-not_found = λ p s h. first_of-not_found (keep p (get s)) h;
    find-ok = λ p s rs h. sym (ok-injective h);
    count-ok = λ p s n h. sym (ok-injective h);
    create-ok = λ r s a s' h.
        let e = ok-injective h in
        (
          subst (assigned r) (ap (λ (x : Row × S). x.0) e) (right s r),
          sym (ap (λ (x : Row × S). get x.1) e)
              ∙ got (get s ++ assign s r ∷ []) s
              ∙ ap (λ (x : Row × S). get s ++ x.0 ∷ []) e,
        );
    create_or_nothing-ok = λ r s s' h. inserted r s s' h;
    update-ok = λ p f s s' h. sym (ap get (ok-injective h)) ∙ got (updated p f (get s)) s;
  }
    where
      inserted :
          (r : Row) (s s' : S)
          → insert_unless (any (conflict r) (get s)) r s ≡ ok s'
          → (any (conflict r) (get s) ≡ true) × (get s' ≡ get s)
            ⊎ (any (conflict r) (get s) ≡ false)
              × ((a : Row) × assigned r a × (get s' ≡ get s ++ a ∷ []))
      inserted r s s' h = elim (Bool-cases (any (conflict r) (get s))) [
        | inl t ↦ inl (t, sym (ap get (ok-injective (rw t at h))))
        | inr f ↦ inr (
          f,
          (
            assign s r,
            right s r,
            sym (ap get (ok-injective (rw f at h))) ∙ got (get s ++ assign s r ∷ []) s,
          ),
        )
      ]

  -- A table elsewhere in the state is left alone.
  pub table-Apart :
      {Other : Type 0} (other : Table (memory S) Other)
      → ((rs : List Row) (s : S) → other.rows (put rs s) ≡ other.rows s)
      → Apart table other
  table-Apart {Other} other frame = record {
    create-apart =
        λ r s a s' h. sym (ap (λ (x : Row × S). other.rows x.1) (ok-injective h)) ∙ frame _ s;
    create_or_nothing-apart = λ r s s' h. untouched (any (conflict r) (get s)) r s s' h;
    save-apart = λ r s s' h. sym (ap other.rows (ok-injective h)) ∙ frame _ s;
    update-apart = λ p f s s' h. sym (ap other.rows (ok-injective h)) ∙ frame _ s;
    delete-apart = λ p s s' h. sym (ap other.rows (ok-injective h)) ∙ frame _ s;
  }
    where
      untouched :
          (b : Bool) (r : Row) (s s' : S)
          → insert_unless b r s ≡ ok s'
          → other.rows s' ≡ other.rows s
      untouched true r s s' h = sym (ap other.rows (ok-injective h))
      untouched false r s s' h = sym (ap other.rows (ok-injective h)) ∙ frame _ s
