-- ===== src/Billing/Charges.antt =====
-- router/internal/store/platform.go: usage events and their charges, each stored at most once.
pub mod Laws
use aether_code.Base.{
  ℕ, Bool, List, [], ◌∷◌, Option, none, some, Text, codes, ◌==◌, text_eq, nat_eq, ℤ, pos, ◌*ℤ◌,
  wrap_int64, if◌then◌else◌, Result, ok, err,
}
use aether_code.Store.Provider.{Time}
use aether_code.Store.Database.{Database, Table, QueryError, not_found, failed}
use aether_code.Billing.{
  PriceConfig, UsageEvent, BillableCharge, apply_event_defaults, apply_price_defaults,
}
use aether_code.Billing.Prices.{PriceTable, PriceResolutionInput, resolve_price}

pub record BillingStore (d : Database) : Type 1 where
  pub prices : PriceTable d
  pub events : Table d UsageEvent
  pub charges : Table d BillableCharge

-- The row that the query finds.
abbrev pub persisted : {A S : Type 0} → S → Result QueryError A → Result Text A × S
persisted s (ok a) = (ok a, s)
persisted s (err not_found) = (err (codes "record not found"), s)
persisted s (err (failed e)) = (err e, s)

abbrev pub stored : {A S : Type 0} → S → Result Text S → (S → Result Text A × S) → Result Text A × S
stored s (err e) then' = (err e, s)
stored s (ok s') then' = then' s'

abbrev pub input_of : UsageEvent → PriceResolutionInput
input_of e = record {
  account_id = e.account_id;
  public_model_id = e.public_model_id;
  provider_channel_id = e.provider_channel_id;
  usage_class = e.usage_class;
  cache_state = e.cache_state;
  at = e.completed_at;
}

-- The charge before it is stored; a product that leaves the range of `int64` wraps.
unfoldable pub charge_of : UsageEvent → Option PriceConfig → Time → BillableCharge
charge_of e none now = record {
  id = 0;
  usage_event_id = e.id;
  account_id = e.account_id;
  api_key_id = e.api_key_id;
  price_config_id = none;
  currency = codes "USD";
  unit_price_micros = pos 0;
  billable_units = e.billable_units;
  amount_micros = pos 0;
  usage_class = e.usage_class;
  cache_state = e.cache_state;
  created_at = now;
}
charge_of e (some price) now = record {
  id = 0;
  usage_event_id = e.id;
  account_id = e.account_id;
  api_key_id = e.api_key_id;
  price_config_id = some price.id;
  currency = price.currency;
  unit_price_micros = price.unit_price_micros;
  billable_units = e.billable_units;
  amount_micros = wrap_int64 (price.unit_price_micros *ℤ e.billable_units);
  usage_class = e.usage_class;
  cache_state = e.cache_state;
  created_at = now;
}

module _ (d : Database) (s : BillingStore d) where
  unfoldable pub create_price_config : PriceConfig → Time → d.Db → Result Text PriceConfig × d.Db
  create_price_config p now db = created db (s.prices.prices.create (apply_price_defaults now p) db)
    where
      created : d.Db → Result Text (PriceConfig × d.Db) → Result Text PriceConfig × d.Db
      created db0 (err e) = (err e, db0)
      created db0 (ok (row, db1)) = (ok row, db1)

  -- The `BeforeCreate` hook applies the defaults once more. The insert is gorm's: it fills in the primary
  -- key, and the time of creation where that is zero.
  unfoldable pub create_usage_event :
      (Time → Time → ℤ) → UsageEvent → Time → d.Db → Result Text UsageEvent × d.Db
  create_usage_event millis raw now db =
      let event = apply_event_defaults millis now raw in
      if event.event_id == []
      then (err (codes "usage event id is required"), db)
      else stored db (s.events.create_or_nothing (apply_event_defaults millis now event) db)
          (λ db1. persisted db1 (s.events.first (λ e. e.event_id == event.event_id) db1))

  abbrev pub charge_at :
      UsageEvent
      → Time
      → d.Db
      → Result Text (Option PriceConfig)
      → Result Text BillableCharge × d.Db
  charge_at event now db (err e) = (err e, db)
  charge_at event now db (ok price) =
      stored db (s.charges.create_or_nothing (charge_of event price now) db)
        (λ db1. persisted db1 (s.charges.first (λ c. c.usage_event_id == event.id) db1))

  unfoldable pub create_billable_charge_for_event :
      UsageEvent → Time → d.Db → Result Text BillableCharge × d.Db
  create_billable_charge_for_event event now db =
      charge_at event now db (resolve_price d s.prices now (input_of event) db)
