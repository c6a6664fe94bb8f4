-- ===== src/Billing/Charges/Laws.antt =====
-- An event is charged once, and for the price that is in effect.
use aether_code.Base.{
  ℕ, ℤ, pos, wrap_int64, ◌*ℤ◌, Bool, true, false, List, [], ◌∷◌, ◌++◌, Option, none, some, Text,
  ◌==◌, nat_eq, nat_beq_iff, any, Result, ok, err, Result-cases, ok-injective, In, In-append, inl,
  inr, ◌⊎◌, ◌≡◌, refl, sym, ap, ◌∙◌, subst, arith,
}
use aether_code.Store.Provider.{Time}
use aether_code.Store.Database.{Database, IsTable, QueryError, not_found, failed}
use aether_code.Billing.{PriceConfig, UsageEvent, BillableCharge}
use aether_code.Billing.Prices.{resolve_price}
use aether_code.Billing.Charges.{
  BillingStore, persisted, stored, input_of, charge_of, charge_at, create_billable_charge_for_event,
}

-- Two charges for the same event.
abbrev pub same_event : BillableCharge → BillableCharge → Bool
same_event c e = c.usage_event_id == e.usage_event_id

-- The second charge is the first one with its primary key.
abbrev pub SameCharge : BillableCharge → BillableCharge → Type 0
SameCharge c e = e ≡ record c { id = e.id }

abbrev pub is_charged : UsageEvent → List BillableCharge → Bool
is_charged event charges = any (λ c. event.id == c.usage_event_id) charges

pub persisted-eq-ok :
    {A S : Type 0} (s : S) (r : Result QueryError A) {a : A} {s' : S}
    → persisted s r ≡ (ok a, s')
    → (r ≡ ok a) × (s ≡ s')
persisted-eq-ok {A} {S} s (ok b) h = (
  ap ok (ok-injective (ap (λ (x : Result Text A × S). x.0) h)),
  ap (λ (x : Result Text A × S). x.1) h,
)
persisted-eq-ok {A} {S} s (err not_found) {a} h =
    let bad : ◌≡◌ {A = Result Text A} (err _) (ok a) = ap (λ (x : Result Text A × S). x.0) h in cc
persisted-eq-ok {A} {S} s (err (failed e)) {a} h =
    let bad : ◌≡◌ {A = Result Text A} (err _) (ok a) = ap (λ (x : Result Text A × S). x.0) h in cc

not_charged :
    (event : UsageEvent) (charges : List BillableCharge) (c : BillableCharge)
    → is_charged event charges ≡ false
    → In c charges
    → c.usage_event_id ≡ event.id
    → ⊥
not_charged event [] c h i e = elim i [ ]
not_charged event (x ∷ charges) c h i e = elim i [
  | inl here ↦
      let same : (event.id == x.usage_event_id) ≡ true =
        (nat_beq_iff event.id x.usage_event_id).1
          (sym e ∙ ap (λ (y : BillableCharge). y.usage_event_id) here) in
      clash (ground (arith, same, h))
  | inr there ↦ not_charged event charges c (ground (arith, h)) there e
]
  where
    clash : ⊥ → ⊥
    clash x' = x'

charge_of-event :
    (event : UsageEvent) (price : Option PriceConfig) (now : Time)
    → (charge_of event price now).usage_event_id ≡ event.id
unfolding charge_of
charge_of-event event none now = refl
charge_of-event event (some price) now = refl

-- What an event costs at a price, as an `int64`, and nothing where there is no price.
abbrev pub amount_at : Option PriceConfig → ℤ → ℤ
amount_at none units = pos 0
amount_at (some price) units = wrap_int64 (price.unit_price_micros *ℤ units)

abbrev pub price_id : Option PriceConfig → Option ℕ
price_id none = none
price_id (some price) = some price.id

-- The charge names the key, the account, the price, the units and the amount of an event.
abbrev pub IsChargeFor : UsageEvent → Option PriceConfig → BillableCharge → Type 0
IsChargeFor event price charge =
    (charge.account_id ≡ event.account_id)
    × (charge.api_key_id ≡ event.api_key_id)
    × (charge.price_config_id ≡ price_id price)
    × (charge.billable_units ≡ event.billable_units)
    × (charge.amount_micros ≡ amount_at price event.billable_units)

charge_of-IsChargeFor :
    (event : UsageEvent) (price : Option PriceConfig) (now : Time)
    → IsChargeFor event price (charge_of event price now)
unfolding charge_of
charge_of-IsChargeFor event none now = (refl, refl, refl, refl, refl)
charge_of-IsChargeFor event (some price) now = (refl, refl, refl, refl, refl)

module _ (d : Database) (s : BillingStore d)
    (lawful : IsTable s.charges same_event SameCharge) where
  -- Where the event had a charge, nothing is stored; where it had none, its charge is stored behind the
  -- others, and is the one for the price in effect.
  abbrev pub ChargedOnce : UsageEvent → Time → d.Db → BillableCharge → d.Db → Type 0
  ChargedOnce event now db charge db' =
      (charge.usage_event_id ≡ event.id)
      × In charge (s.charges.rows db')
      × (((is_charged event (s.charges.rows db) ≡ true) × (s.charges.rows db' ≡ s.charges.rows db))
          ⊎ ((is_charged event (s.charges.rows db) ≡ false)
              × (s.charges.rows db' ≡ s.charges.rows db ++ charge ∷ [])
              × ((price : Option PriceConfig) × (resolve_price d s.prices now (input_of event) db
                    ≡ ok price)
                  × IsChargeFor event price charge)))

  found-ChargedOnce :
      (event : UsageEvent) (now : Time) (price : Option PriceConfig) (db db' : d.Db)
      (charge : BillableCharge)
      → resolve_price d s.prices now (input_of event) db ≡ ok price
      → s.charges.create_or_nothing (charge_of event price now) db ≡ ok db'
      → In charge (s.charges.rows db')
      → charge.usage_event_id ≡ event.id
      → ChargedOnce event now db charge db'
  found-ChargedOnce event now price db db' charge priced made at same =
      let id = charge_of-event event price now in
      let charged = λ (x : ℕ). any (λ c. x == c.usage_event_id) (s.charges.rows db) in
      elim (lawful.create_or_nothing-ok (charge_of event price now) db db' made) [
        | inl (there, kept) ↦ (same, at, inl (sym (ap charged id) ∙ there, kept))
        | inr (absent, (row, assigned, added)) ↦
            let free : is_charged event (s.charges.rows db) ≡ false =
              sym (ap charged id) ∙ absent in
            elim (In-append charge (s.charges.rows db) (row ∷ []) (subst (In charge) added at)) [
              | inr (inr none') ↦ elim none' [ ]
              | inl old ↦ absurd (not_charged event (s.charges.rows db) charge free old same)
              | inr (inl new) ↦ (
                same,
                at,
                inr (
                  free,
                  added ∙ ap (λ (c : BillableCharge). s.charges.rows db ++ c ∷ []) (sym new),
                  (
                    price,
                    priced,
                    subst (IsChargeFor event price) (sym new) (
                        subst (IsChargeFor event price) (sym assigned)
                          (charge_of-IsChargeFor event price now)),
                  ),
                ),
              )
            ]
      ]

  stored-ChargedOnce :
      (event : UsageEvent) (now : Time) (price : Option PriceConfig) (db db' : d.Db)
      (charge : BillableCharge)
      → resolve_price d s.prices now (input_of event) db ≡ ok price
      → charge_at d s event now db (ok price) ≡ (ok charge, db')
      → ChargedOnce event now db charge db'
  stored-ChargedOnce event now price db db' charge priced h =
      elim (Result-cases (s.charges.create_or_nothing (charge_of event price now) db)) [
        | inl (db1, made) ↦
            let test = λ (c : BillableCharge). c.usage_event_id == event.id in
            let (found, same) = persisted-eq-ok db1 (s.charges.first test db1) (
              sym (ap (λ r. stored db r (λ db2. persisted db2 (s.charges.first test db2))) made)
              ∙ h) in
            let (at, passes) = lawful.first-ok test db1 charge found in
            subst (ChargedOnce event now db charge) same (
              found-ChargedOnce event now price db db1 charge priced made at
                ((nat_beq_iff charge.usage_event_id event.id).0 passes))
        | inr (e, refused) ↦
            let test = λ (c : BillableCharge). c.usage_event_id == event.id in
            let bad : ◌≡◌ {A = Result Text BillableCharge} (err e) (ok charge) =
              ap (λ (x : Result Text BillableCharge × d.Db). x.0)
                (sym (
                    ap (λ r. stored db r (λ db2. persisted db2 (s.charges.first test db2))) refused)
                  ∙ h) in
            cc
      ]

  -- A successful call returns a stored charge for the event. If the event had a charge, the call
  -- has stored nothing. If it had none, the returned charge is the only one that has been stored,
  -- and it has the account, the key and the units of the event, with the price in effect and the
  -- product of the unit price and the units as an int64, or no price and the amount 0. The tables
  -- answer as their interface says.
  pub create_billable_charge-ChargedOnce :
      (event : UsageEvent) (now : Time) (db : d.Db) {charge : BillableCharge} {db' : d.Db}
      → create_billable_charge_for_event d s event now db ≡ (ok charge, db')
      → ChargedOnce event now db charge db'
  unfolding create_billable_charge_for_event
  create_billable_charge-ChargedOnce event now db {charge} {db'} h =
      elim (Result-cases (resolve_price d s.prices now (input_of event) db)) [
        | inl (price, priced) ↦
            stored-ChargedOnce event now price db db' charge priced
              (sym (ap (charge_at d s event now db) priced) ∙ h)
        | inr (e, refused) ↦
            let bad : ◌≡◌ {A = Result Text BillableCharge} (err e) (ok charge) =
              ap (λ (x : Result Text BillableCharge × d.Db). x.0)
                (sym (ap (charge_at d s event now db) refused) ∙ h) in
            cc
      ]
