-- ===== src/Billing/Tests.antt =====
-- The theorems about prices and charges at concrete inputs, on a database in memory with a fixed price.
use aether_code.Base.{
  ==_ne, ◌≢◌, if◌then◌else◌, ℤ, ℕ, ◌≤◌, List, [], ◌∷◌, none, some, codes, ◌==◌, text_eq, nat_eq,
  text_beq, pos, leb, if◌then◌else◌, ok, In, inl, inr, ◌⊎◌, ◌↔◌, ◌≡◌, refl, sym, subst, arith,
  Bool-cases, keep, ok-injective, wrap_int64, ◌*ℤ◌,
}
use aether_code.Text.{trim_space, drop_left, drop_right}
use aether_code.Store.Provider.{Time}
use aether_code.Store.Database.{Table, IsTable}
use aether_code.Store.Memory.{memory, table, table-IsTable}
use aether_code.Billing.{PriceConfig, UsageEvent, BillableCharge}
use aether_code.Billing.Prices.{
  PriceTable, NewestFirst, matches, choose, normalized_input, resolve_price, IsNotNewer,
}
use aether_code.Billing.Prices.Laws.{asked_for, IsInEffect, resolve_price-Resolved}
use aether_code.Billing.Events.{same_event_id, SameEvent, StoredOnce, create_usage_event-StoredOnce}
use aether_code.Billing.{apply_event_defaults}
use aether_code.Billing.Charges.{
  create_usage_event, BillingStore, input_of, charge_of, create_billable_charge_for_event,
}
use aether_code.Billing.Charges.Laws.{
  same_event, SameCharge, ChargedOnce, create_billable_charge-ChargedOnce,
}

record State : Type 0 where
  events : List UsageEvent
  charges : List BillableCharge

abbrev price : PriceConfig
price = record {
  id = 1;
  account_id = none;
  public_model_id = codes "m";
  provider_channel_id = none;
  usage_class = codes "request";
  cache_state = codes "unknown";
  currency = codes "USD";
  unit_price_micros = pos 250;
  effective_at = 10;
  created_at = 10;
  updated_at = 10;
}

abbrev prices : Table (memory State) PriceConfig
prices = table (λ (s : State). price ∷ []) (λ rs s. s) (λ p q. p.id == q.id) (λ s p. p)

abbrev in_effect : Time → List PriceConfig
in_effect at = if leb 10 at then price ∷ [] else []

in_effect-In :
    (at : Time) (p : PriceConfig)
    → In p (in_effect at) ↔ (In p (price ∷ []) × (p.effective_at ≤ at))
in_effect-In at p = elim (Bool-cases (leb 10 at)) [
  | inl t ↦ rw t (
    λ i. (
      i,
      elim i [
        | inl e ↦ subst (λ (q : PriceConfig). q.effective_at ≤ at) (sym e) (ground (arith, t))
        | inr x ↦ elim x [ ]
      ],
    ),
    λ h. h.0,
  )
  | inr f ↦ rw f (
    λ i. elim i [ ],
    λ h. elim h.0 [
      | inl e ↦ absurd (ground (arith, f, subst (λ (q : PriceConfig). q.effective_at ≤ at) e h.1))
      | inr x ↦ elim x [ ]
    ],
  )
]

in_effect-NewestFirst : (at : Time) → NewestFirst (in_effect at)
in_effect-NewestFirst at = elim (Bool-cases (leb 10 at)) [ inl t ↦ rw t (tt, tt) | inr f ↦ rw f tt ]

abbrev price_table : PriceTable (memory State)
price_table = record {
  prices = prices;
  in_effect = λ at s. ok (in_effect at);
  in_effect-In = λ at s ps h p.
      subst (λ (qs : List PriceConfig). In p qs ↔ (In p (price ∷ []) × (p.effective_at ≤ at)))
        (ok-injective h) (in_effect-In at p);
  in_effect-NewestFirst =
      λ at s ps h. subst NewestFirst (ok-injective h) (in_effect-NewestFirst at);
}

abbrev put_charges : List BillableCharge → State → State
put_charges rs s = record s { charges = rs }

-- What an insert fills in.
abbrev filled : State → UsageEvent → UsageEvent
filled s e = record e { id = 9; created_at = if e.created_at == 0 then 60 else e.created_at }

abbrev put_events : List UsageEvent → State → State
put_events rs s = record s { events = rs }

abbrev store : BillingStore (memory State)
store = record {
  prices = price_table;
  events = table (λ (s : State). s.events) put_events same_event_id filled;
  charges = table (λ (s : State). s.charges) put_charges same_event (λ s c. c);
}

charges-IsTable : IsTable store.charges same_event SameCharge
charges-IsTable =
    table-IsTable (λ (s : State). s.charges) put_charges same_event (λ s c. c) SameCharge
      (λ rs s. refl) (λ s c. refl)

abbrev event : UsageEvent
event = record {
  id = 5;
  event_id = codes "relay:1";
  request_id = codes "r";
  account_id = 1;
  api_key_id = 7;
  public_model_id = codes "m";
  provider_id = 2;
  provider_channel_id = none;
  endpoint_capability = codes "openai.completions";
  usage_class = codes "request";
  cache_state = codes "hit";
  outcome = codes "success";
  status_code = pos 200;
  upstream_status = pos 200;
  input_units = pos 0;
  output_units = pos 0;
  billable_units = pos 2;
  error_code = [];
  started_at = 20;
  completed_at = 30;
  duration_millis = pos 10;
  created_at = 30;
}

abbrev start : State
start = record { events = event ∷ []; charges = [] }

abbrev charge : BillableCharge
charge = record {
  id = 0;
  usage_event_id = 5;
  account_id = 1;
  api_key_id = 7;
  price_config_id = some 1;
  currency = codes "USD";
  unit_price_micros = pos 250;
  billable_units = pos 2;
  amount_micros = pos 500;
  usage_class = codes "request";
  cache_state = codes "hit";
  created_at = 40;
}

-- What evaluating a charge unfolds.
charge_runs : Unit {0}
unfolding resolve_price normalized_input choose matches create_billable_charge_for_event charge_of
    trim_space drop_left drop_right text_beq keep wrap_int64 ◌*ℤ◌
charge_runs = tt

event_runs : Unit {0}
unfolding create_usage_event apply_event_defaults trim_space drop_left drop_right text_beq keep
event_runs = tt

charges :
    create_billable_charge_for_event (memory State) store event 40 start
    ≡ (ok charge, put_charges (charge ∷ []) start)
unfolding charge_runs
charges = refl

create_billable_charge-ChargedOnce_example :
    ChargedOnce
      (memory State)
      store
      charges-IsTable
      event
      40
      start
      charge
      (put_charges (charge ∷ []) start)
create_billable_charge-ChargedOnce_example =
    create_billable_charge-ChargedOnce (memory State) store charges-IsTable event 40 start charges

resolve_price-Resolved_example :
    let asked = asked_for (memory State) price_table 40 (input_of event) in
    ((some price ≡ none)
      × ((q : PriceConfig)
          → IsInEffect (memory State) price_table 40 (input_of event) start q
          → matches q asked ≡ none))
    ⊎ ((p : PriceConfig) × (score : ℕ) × (some price ≡ some p)
        × IsInEffect (memory State) price_table 40 (input_of event) start p
        × (matches p asked ≡ some score)
        × ((q : PriceConfig) (other : ℕ)
            → IsInEffect (memory State) price_table 40 (input_of event) start q
            → matches q asked ≡ some other
            → (other ≤ score) × (other ≡ score → IsNotNewer q p)))
resolve_price-Resolved_example =
    resolve_price-Resolved (memory State) price_table 40 (input_of event) start
      (unfold charge_runs in refl)

events-IsTable : IsTable store.events same_event_id SameEvent
events-IsTable =
    table-IsTable (λ (s : State). s.events) put_events same_event_id filled SameEvent (λ rs s. refl)
      (λ s e. (refl, kept e.created_at))
  where
    kept : (n : Time) → n ≢ 0 → (if n == 0 then 60 else n) ≡ n
    kept n ne = rw (==_ne n 0 ne) refl

abbrev millis : Time → Time → ℤ
millis a b = pos 10

-- A request with another event id.
abbrev other : UsageEvent
other = record event { id = 0; event_id = codes "relay:2"; created_at = 0 }

abbrev other_stored : UsageEvent
other_stored = record other { id = 9; created_at = 60 }

abbrev after : State
after = record start { events = event ∷ other_stored ∷ [] }

stores : create_usage_event (memory State) store millis other 50 start ≡ (ok other_stored, after)
unfolding event_runs
stores = refl

create_usage_event-StoredOnce_example :
    StoredOnce (memory State) store events-IsTable millis other 50 start other_stored after
create_usage_event-StoredOnce_example =
    create_usage_event-StoredOnce (memory State) store events-IsTable millis other 50 start stores
