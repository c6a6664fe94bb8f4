-- ===== src/Billing.antt =====
-- router/internal/store/platform.go: prices, usage events and the charges for them. Times are numbers, and 0
-- is Go's zero time.
pub mod Prices
pub mod Charges
pub mod Events
mod Tests
use aether_code.Base.{
  ℕ, Bool, Option, none, some, List, [], ◌∷◌, Text, codes, ◌==◌, text_eq, nat_eq, int_eq, ℤ, pos,
  if◌then◌else◌,
}
use aether_code.Text.{trim_space, to_upper}
use aether_code.Store.Provider.{Time}

pub record PriceConfig : Type 0 where
  pub id : ℕ
  pub account_id : Option ℕ
  pub public_model_id : Text
  pub provider_channel_id : Option ℕ
  pub usage_class : Text
  pub cache_state : Text
  pub currency : Text
  pub unit_price_micros : ℤ
  pub effective_at : Time
  pub created_at : Time
  pub updated_at : Time

pub record UsageEvent : Type 0 where
  pub id : ℕ
  pub event_id : Text
  pub request_id : Text
  pub account_id : ℕ
  pub api_key_id : ℕ
  pub public_model_id : Text
  pub provider_id : ℕ
  pub provider_channel_id : Option ℕ
  pub endpoint_capability : Text
  pub usage_class : Text
  pub cache_state : Text
  pub outcome : Text
  pub status_code : ℤ
  pub upstream_status : ℤ
  pub input_units : ℤ
  pub output_units : ℤ
  pub billable_units : ℤ
  pub error_code : Text
  pub started_at : Time
  pub completed_at : Time
  pub duration_millis : ℤ
  pub created_at : Time

pub record BillableCharge : Type 0 where
  pub id : ℕ
  pub usage_event_id : ℕ
  pub account_id : ℕ
  pub api_key_id : ℕ
  pub price_config_id : Option ℕ
  pub currency : Text
  pub unit_price_micros : ℤ
  pub billable_units : ℤ
  pub amount_micros : ℤ
  pub usage_class : Text
  pub cache_state : Text
  pub created_at : Time

abbrev pub usage_class_request : Text
usage_class_request = codes "request"

abbrev pub cache_state_unknown : Text
cache_state_unknown = codes "unknown"

-- A trimmed text, or the default where nothing is left.
abbrev pub text_or : Text → Text → Text
text_or default' raw = if trim_space raw == [] then default' else trim_space raw

abbrev pub time_or : Time → Time → Time
time_or default' t = if t == 0 then default' else t

abbrev pub int_or : ℤ → ℤ → ℤ
int_or default' n = if n == pos 0 then default' else n

unfoldable pub apply_price_defaults : Time → PriceConfig → PriceConfig
apply_price_defaults now p = record p {
  public_model_id = trim_space p.public_model_id;
  usage_class = text_or usage_class_request p.usage_class;
  cache_state = text_or cache_state_unknown p.cache_state;
  currency =
      if to_upper (trim_space p.currency) == []
      then codes "USD"
      else to_upper (trim_space p.currency);
  effective_at = time_or now p.effective_at;
}

-- The milliseconds between two times are a parameter.
unfoldable pub apply_event_defaults : (Time → Time → ℤ) → Time → UsageEvent → UsageEvent
apply_event_defaults millis now e =
    let completed_at = time_or now e.completed_at in
    let started_at = time_or completed_at e.started_at in
    record e {
      event_id = trim_space e.event_id;
      request_id = trim_space e.request_id;
      public_model_id = trim_space e.public_model_id;
      endpoint_capability = trim_space e.endpoint_capability;
      usage_class = text_or usage_class_request e.usage_class;
      cache_state = text_or cache_state_unknown e.cache_state;
      outcome = text_or (codes "failed") e.outcome;
      billable_units = int_or (pos 1) e.billable_units;
      completed_at = completed_at;
      started_at = started_at;
      duration_millis =
          if completed_at == 0
          then e.duration_millis
          else if started_at == 0
          then e.duration_millis
          else int_or (millis started_at completed_at) e.duration_millis;
    }
