-- ===== src/Relay/Usage.antt =====
-- router/internal/app/usage.go: a usage record becomes a stored usage event and its charge. A random token
-- and the time since the Unix epoch stay parameters.
pub mod Laws
use aether_code.Base.{
  ℕ, Bool, true, false, ◌&&◌, ◌||◌, List, [], ◌∷◌, ◌++◌, Option, none, some, Text, codes, ◌==◌,
  text_eq, nat_eq, ℤ, pos, leb, keep, if◌then◌else◌, Result, ok, err,
}
use aether_code.Text.{trim_space}
use aether_code.Store.Provider.{Time}
use aether_code.Store.Database.{Database}
use aether_code.Keys.{AuthIdentity}
use aether_code.Billing.{UsageEvent, usage_class_request, time_or}
use aether_code.Billing.Charges.{BillingStore, create_usage_event, create_billable_charge_for_event}
use aether_code.Http.Headers.{Header, header_get}
use aether_code.Relay.Attempts.{
  UsageRecord, Selected, Outcome, success, failed, CacheState, hit, miss, unknown,
}

abbrev pub is_request_id_byte : ℕ → Bool
is_request_id_byte c =
    (leb b'a' c && leb c b'z')
    || (leb b'A' c && leb c b'Z')
    || (leb b'0' c && leb c b'9')
    || c == b'-'
    || c == b'_'
    || c == b':'

abbrev pub request_or : Text → Text
request_or [] = codes "request"
request_or (c ∷ s) = c ∷ s

unfoldable pub sanitize_request_id : Text → Text
sanitize_request_id value = request_or (keep is_request_id_byte (trim_space value))

-- The first of the two headers that is not blank, or a random token.
unfoldable pub request_id_from_request : Text → Header → Text
request_id_from_request token header =
    let first = trim_space (header_get header (codes "X-Request-ID")) in
    let second = trim_space (header_get header (codes "X-Aether-Request-ID")) in
    if first == []
    then if second == [] then token else sanitize_request_id second
    else sanitize_request_id first

abbrev outcome_text : Outcome → Text
outcome_text success = codes "success"
outcome_text failed = codes "failed"

abbrev cache_state_text : Option CacheState → Text
cache_state_text none = codes "unknown"
cache_state_text (some hit) = codes "hit"
cache_state_text (some miss) = codes "miss"
cache_state_text (some unknown) = codes "unknown"

abbrev provider_id_of : Option Selected → ℕ
provider_id_of none = 0
provider_id_of (some s) = s.provider.id

abbrev channel_id_of : Option Selected → Option ℕ
channel_id_of none = none
channel_id_of (some s) =
    if s.provider.platform_channel_id == 0 then none else some s.provider.platform_channel_id

-- The event of a record: the token is that of the request.
unfoldable pub usage_event_of :
    (Time → Time → ℤ) → Time → Text → Text → AuthIdentity → UsageRecord → UsageEvent
usage_event_of millis now token request_id identity r =
    let completed_at = time_or now r.completed_at in
    let started_at = time_or completed_at r.started_at in
    record {
      id = 0;
      event_id =
          codes "relay:" ++ (token ++ (codes ":" ++ sanitize_request_id r.endpoint_capability));
      request_id = request_id;
      account_id = identity.account_id;
      api_key_id = identity.api_key_id;
      public_model_id = r.model_id;
      provider_id = provider_id_of r.selected;
      provider_channel_id = channel_id_of r.selected;
      endpoint_capability = r.endpoint_capability;
      usage_class = usage_class_request;
      cache_state = cache_state_text r.cache_state;
      outcome = outcome_text r.outcome;
      status_code = pos r.status_code;
      upstream_status = pos r.upstream_status;
      input_units = pos 0;
      output_units = pos 0;
      billable_units = pos 1;
      error_code = r.error_code;
      started_at = started_at;
      completed_at = completed_at;
      duration_millis = millis started_at completed_at;
      created_at = 0;
    }

module _ (d : Database) (s : BillingStore d) where
  abbrev pub charged : Time → Result Text UsageEvent × d.Db → d.Db
  charged now (err e, db) = db
  charged now (ok event, db) =
      let (c, db') = create_billable_charge_for_event d s event now db in db'

  -- The database after a record. The request has no identity, or one that may be without an account.
  unfoldable pub record_relay_usage :
      (Time → Time → ℤ) → Time → Text → Text → Option AuthIdentity → UsageRecord → d.Db → d.Db
  record_relay_usage millis now token request_id none r db = db
  record_relay_usage millis now token request_id (some identity) r db =
      if identity.account_id == 0 || identity.api_key_id == 0
      then db
      else charged now (
          create_usage_event d s millis (usage_event_of millis now token request_id identity r) now
            db)
