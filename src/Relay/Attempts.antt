-- ===== src/Relay/Attempts.antt =====
-- router/internal/app/openai.go: the loop over providers. The loop counts the attempts that are left,
-- which is `MaxRetries - attempt + 1`.
pub mod Laws
pub mod Runs
use aether_code.Base.{
  any, ℕ, zero, suc, ◌+◌, Bool, true, false, ◌&&◌, ◌||◌, not, List, [], ◌∷◌, ◌++◌, map, Option,
  none, some, Text, codes, ◌==◌, nat_eq, text_eq, leb, ltb, length, if◌then◌else◌, ℤ, pos, negsuc,
  Result, ok, err,
}
use aether_code.Text.{trim_space, to_lower, or_else, format_uint, is_some}
use aether_code.Store.Provider.{Provider, Time}
use aether_code.Store.Cache.{
  Cache, SelectError, model_required, no_provider, no_remaining, no_remaining_for,
  select_for_capability,
}
use aether_code.Http.{Json, Write, sets_header, write_openai_error}
use aether_code.Http.Headers.{Header, header_get}
use aether_code.Relay.Body.{
  Kind, Envelope, encode_for, openai_compatible_format, openai_endpoint_capability,
}
use aether_code.Relay.Response.{
  Response, Writer, Copied, CommitTracker, new_tracker, copy_upstream_response,
}

pub record Selected : Type 0 where
  pub provider : Provider
  pub version : ℕ
  pub request_model : Text

pub record AttemptState : Type 0 where
  -- The set of the ids, the latest one first.
  pub attempted : List ℕ
  pub last_err : Option Text
  pub last_selected : Option Selected

abbrev pub new_attempt_state : AttemptState
new_attempt_state = record { attempted = []; last_err = none; last_selected = none }

unfoldable pub has_attempted : AttemptState → Bool
has_attempted s = ltb 0 (length s.attempted)

pub data Outcome : Type 0 where
  success failed : Outcome

pub data CacheState : Type 0 where
  hit miss unknown : CacheState

-- What the three headers say, the first one that says it.
abbrev pub state_of_word : Text → Option CacheState
state_of_word word =
    if any (λ t. t == word) (codes "hit" ∷ codes "cache-hit" ∷ codes "cached" ∷ [])
    then some hit
    else if any (λ t. t == word)
        (codes "miss" ∷ codes "cache-miss" ∷ codes "dynamic" ∷ codes "bypass" ∷ [])
    then some miss
    else none

abbrev pub first_state : Option CacheState → CacheState → CacheState
first_state none later = later
first_state (some s) later = s

unfoldable pub state_from : Header → List Text → CacheState
state_from header [] = unknown
state_from header (name ∷ names) =
    first_state (state_of_word (to_lower (trim_space (header_get header name))))
      (state_from header names)

unfoldable pub cache_state_from_response : Header → CacheState
unfolding state_from
cache_state_from_response header =
    state_from header (codes "X-Aether-Cache" ∷ codes "X-Cache" ∷ codes "CF-Cache-Status" ∷ [])

-- `relayUsageRecord`. A missing field is 0, empty or `none`.
pub record UsageRecord : Type 0 where
  pub started_at : Time
  pub completed_at : Time
  pub model_id : Text
  pub selected : Option Selected
  pub endpoint_capability : Text
  pub outcome : Outcome
  pub status_code : ℕ
  pub upstream_status : ℕ
  pub cache_state : Option CacheState
  pub error_code : Text

-- What a relay does, in order. `sends` names the provider of an attempt and the body that is sent to it,
-- or the error of encoding it; `drains` discards an upstream response.
pub data Event : Type 0 where
  sends : ℕ → Result Text Text → Event
  drains : Event
  records : UsageRecord → Event
  writes : Write → Event

unfoldable pub should_retry : ℕ → Bool
should_retry status = status == 429 || leb 500 status

-- What the relay has around it, at each attempt: the routing cache when it selects and when it reads the
-- version, which another goroutine may replace in between, the random draw, the upstream client, the
-- clock, and the client's connection.
pub record World : Type 0 where
  pub json : Json
  pub cache : ℕ → Cache
  pub version : ℕ → ℕ
  pub intn : ℕ → ℕ → ℕ
  pub do_request : ℕ → Provider → Kind → Text → Text → Result Text Response
  pub clock : ℕ → Time
  pub quote : Text → Text
  pub writer : Writer
  pub can_flush : Bool

pub record Config : Type 0 where
  pub max_retries : ℤ
  pub instance_id : Text
  pub max_body_bytes : ℤ

-- What an attempt leaves: an answer, or the state for the next one.
pub data Step : Type 0 where
  answers : List Event → Step
  retries : List Event → AttemptState → Step
  panics : Step

unfoldable pub set_provider_headers : Text → Selected → List Write
set_provider_headers instance_id selected =
    sets_header (codes "X-Aether-Router-Instance") instance_id
    ∷ sets_header (codes "X-Aether-Provider-ID") (format_uint selected.provider.id)
    ∷ sets_header (codes "X-Aether-Provider-Name") selected.provider.name
    ∷ sets_header (codes "X-Aether-Provider-Version") (format_uint selected.version)
    ∷ []

unfoldable pub write_openai_upstream_error : Json → Option Text → List Write
write_openai_upstream_error json e =
    write_openai_error json 502 (codes "api_error") (codes "upstream_error")
      (or_else e (codes "upstream request failed"))

abbrev pub before : List Event → Option (List Event) → Option (List Event)
before es none = none
before es (some later) = some (es ++ later)

abbrev pub and_then : Step → (AttemptState → Option (List Event)) → Option (List Event)
and_then (answers es) rest = some es
and_then (retries es state) rest = before es (rest state)
and_then panics rest = none

abbrev pub attempts_allowed : ℤ → ℕ
attempts_allowed (pos n) = suc n
attempts_allowed (negsuc n) = 0

module _ (w : World) (cfg : Config) (started_at : Time) (envelope : Envelope) where
  abbrev pub error_text : SelectError → Text
  error_text model_required = codes "model is required"
  error_text (no_provider model) = codes "no provider for model " ++ w.quote model
  error_text (no_remaining model) = codes "no remaining provider for model " ++ w.quote model
  error_text (no_remaining_for model capability) =
      codes "no remaining provider for model "
      ++ (w.quote model ++ (codes " and capability " ++ w.quote capability))

  abbrev pub failure : ℕ → Option Selected → ℕ → Text → UsageRecord
  failure n selected status code = record {
    started_at = started_at;
    completed_at = w.clock n;
    model_id = envelope.body.model;
    selected = selected;
    endpoint_capability = openai_endpoint_capability envelope.kind;
    outcome = failed;
    status_code = status;
    upstream_status = 0;
    cache_state = none;
    error_code = code;
  }

  -- The answer when every attempt has failed.
  unfoldable pub give_up : ℕ → AttemptState → List Event
  give_up n state =
      records (failure n state.last_selected 502 (codes "upstream_error"))
      ∷ map writes (write_openai_upstream_error w.json state.last_err)

  unfoldable pub no_selection : ℕ → AttemptState → SelectError → List Event
  no_selection n state e =
      if has_attempted state && is_some state.last_err
      then give_up n state
      else records (failure n none 503 (codes "model_not_found"))
        ∷ map writes (
            write_openai_error w.json 503 (codes "invalid_request_error") (codes "model_not_found")
              (error_text e))

  abbrev pub answer_status : CommitTracker → Response → ℕ
  answer_status t resp = if t.status_code == 0 then resp.status else t.status_code

  abbrev pub relayed : ℕ → Selected → Response → ℕ → UsageRecord
  relayed n selected resp status = record {
    started_at = started_at;
    completed_at = w.clock n;
    model_id = envelope.body.model;
    selected = some selected;
    endpoint_capability = openai_endpoint_capability envelope.kind;
    outcome = if leb 400 status then failed else success;
    status_code = status;
    upstream_status = resp.status;
    cache_state = some (cache_state_from_response resp.header);
    error_code = [];
  }

  -- The answer that an upstream response gives.
  unfoldable pub pass_on : ℕ → Selected → Response → List Event
  pass_on n selected resp =
      let (ws, t, e) = copy_upstream_response w.writer w.can_flush resp new_tracker in
      map writes (set_provider_headers cfg.instance_id selected ++ ws)
      ++ records (relayed n selected resp (answer_status t resp)) ∷ []

  -- `adaptor.send`
  abbrev pub sent_body : ℕ → Selected → Result Text Text → Result Text Response
  sent_body n selected (err e) = err e
  sent_body n selected (ok body) =
      w.do_request n selected.provider envelope.kind selected.request_model body

  abbrev pub after_send : ℕ → Selected → AttemptState → Event → Result Text Response → Step
  after_send n selected state sent (err e) =
      retries (sent ∷ []) (record state { last_err = some e })
  after_send n selected state sent (ok resp) =
      if should_retry resp.status
      then retries (sent ∷ drains ∷ [])
          (record state { last_err = some (codes "upstream status " ++ format_uint resp.status) })
      else answers (sent ∷ pass_on n selected resp)

  abbrev pub after_select : ℕ → AttemptState → Option (Result SelectError Provider) → Step
  after_select n state none = panics
  after_select n state (some (err e)) = answers (no_selection n state e)
  after_select n state (some (ok p)) =
      let selected : Selected = record {
        provider = p;
        version = w.version n;
        request_model = envelope.body.model;
      } in
      let body = encode_for w.json envelope.body p envelope.body.model in
      after_send n selected
        (record state { attempted = p.id ∷ state.attempted; last_selected = some selected })
        (sends p.id body) (sent_body n selected body)

  -- One turn of the loop.
  unfoldable pub attempt_once : ℕ → AttemptState → Step
  attempt_once n state = after_select n state (
      select_for_capability (w.intn n) (w.cache n) envelope.body.model
        (openai_endpoint_capability envelope.kind) state.attempted)

  -- `none` is a panic.
  unfoldable pub attempts : ℕ → ℕ → AttemptState → Option (List Event)
  attempts zero n state = some (give_up n state)
  attempts (suc left) n state = and_then (attempt_once n state) (λ s. attempts left (suc n) s)

  unfoldable pub relay_openai_compatible : Option (List Event)
  relay_openai_compatible =
      if envelope.format == openai_compatible_format
      then attempts (attempts_allowed cfg.max_retries) 0 new_attempt_state
      else some (
          records (failure 0 none 500 (codes "unsupported_relay_format"))
          ∷ map writes (
              write_openai_error w.json 500 (codes "api_error") (codes "unsupported_relay_format")
                (codes "unsupported relay format")))
