-- ===== src/Relay/Attempts/Laws.antt =====
-- What the events of a relay say: who is asked, what is recorded and what the client sees.
use aether_code.Base.{
  ℕ, true, false, List, [], ◌∷◌, ◌++◌, map, Option, none, some, Text, codes, append-nil, nat_eq,
  leb, if◌then◌else◌, inl, inr, ◌⊎◌, ◌≡◌, refl, sym, ap, ◌∙◌, arith,
}
use aether_code.Text.{is_some}
use aether_code.Store.Provider.{Time}
use aether_code.Store.Cache.{SelectError}
use aether_code.Http.{Write, Json, statuses, write_openai_error}
use aether_code.Relay.Body.{Envelope}
use aether_code.Relay.Response.{Response, copy_upstream_response, new_tracker}
use aether_code.Relay.Response.Laws.{statuses-append, copy-status}
use aether_code.Relay.Attempts.{
  World, Config, Event, sends, drains, records, writes, UsageRecord, Outcome, success, failed,
  Selected, AttemptState, should_retry, give_up, no_selection, pass_on, has_attempted,
  set_provider_headers, write_openai_upstream_error, failure, relayed, answer_status, error_text,
}

-- The providers that are asked, in order.
unfoldable pub asked : List Event → List ℕ
asked [] = []
asked (sends id body ∷ es) = id ∷ asked es
asked (drains ∷ es) = asked es
asked (records r ∷ es) = asked es
asked (writes w ∷ es) = asked es

unfoldable pub recorded : List Event → List UsageRecord
recorded [] = []
recorded (sends id body ∷ es) = recorded es
recorded (drains ∷ es) = recorded es
recorded (records r ∷ es) = r ∷ recorded es
recorded (writes w ∷ es) = recorded es

-- What the client is sent.
unfoldable pub written : List Event → List Write
written [] = []
written (sends id body ∷ es) = written es
written (drains ∷ es) = written es
written (records r ∷ es) = written es
written (writes w ∷ es) = w ∷ written es

pub asked-append : (es fs : List Event) → asked (es ++ fs) ≡ asked es ++ asked fs
unfolding asked
asked-append [] fs = refl
asked-append (sends id body ∷ es) fs = ap (λ (x : List ℕ). id ∷ x) (asked-append es fs)
asked-append (drains ∷ es) fs = asked-append es fs
asked-append (records r ∷ es) fs = asked-append es fs
asked-append (writes w ∷ es) fs = asked-append es fs

pub recorded-append : (es fs : List Event) → recorded (es ++ fs) ≡ recorded es ++ recorded fs
unfolding recorded
recorded-append [] fs = refl
recorded-append (sends id body ∷ es) fs = recorded-append es fs
recorded-append (drains ∷ es) fs = recorded-append es fs
recorded-append (records r ∷ es) fs = ap (λ (x : List UsageRecord). r ∷ x) (recorded-append es fs)
recorded-append (writes w ∷ es) fs = recorded-append es fs

pub written-append : (es fs : List Event) → written (es ++ fs) ≡ written es ++ written fs
unfolding written
written-append [] fs = refl
written-append (sends id body ∷ es) fs = written-append es fs
written-append (drains ∷ es) fs = written-append es fs
written-append (records r ∷ es) fs = written-append es fs
written-append (writes w ∷ es) fs = ap (λ (x : List Write). w ∷ x) (written-append es fs)

pub written-map : (ws : List Write) → written (map writes ws) ≡ ws
unfolding written
written-map [] = refl
written-map (w ∷ ws) = ap (λ (x : List Write). w ∷ x) (written-map ws)

pub recorded-map : (ws : List Write) → recorded (map writes ws) ≡ []
unfolding recorded
recorded-map [] = refl
recorded-map (w ∷ ws) = recorded-map ws

pub asked-map : (ws : List Write) → asked (map writes ws) ≡ []
unfolding asked
asked-map [] = refl
asked-map (w ∷ ws) = asked-map ws

abbrev pub outcome_of : ℕ → Outcome
outcome_of status = if leb 400 status then failed else success

-- The status that the client sees first, with the one usage record of the relay, which tells the same
-- status and the provider that was asked last. No provider is asked in these events.
abbrev pub Final : Option Selected → List Event → Type 0
Final last es =
    (s : ℕ) × (r : UsageRecord) × (asked es ≡ [])
    × (recorded es ≡ r ∷ [])
    × (statuses (written es) ≡ s ∷ [])
    × (r.status_code ≡ s)
    × (r.outcome ≡ outcome_of s)
    × (r.selected ≡ last)
    × ((s ≡ 502) ⊎ (s ≡ 503) ⊎ (should_retry s ≡ false))

-- The id of the provider of a selection.
abbrev pub id_of : Option Selected → Option ℕ
id_of none = none
id_of (some selected) = some selected.provider.id

-- What is claimed of the status of an answer.
abbrev pub IsFinalStatus : ℕ → Type 0
IsFinalStatus s = (s ≡ 502) ⊎ (s ≡ 503) ⊎ (should_retry s ≡ false)

module _ (last : Option Selected) (s : ℕ) (r : UsageRecord) (ws : List Write)
    (one : statuses ws ≡ s ∷ []) (status : r.status_code ≡ s) (outcome : r.outcome ≡ outcome_of s)
    (selected : r.selected ≡ last) (final : IsFinalStatus s) where
  record_first-Final : Final last (records r ∷ map writes ws)
  unfolding asked recorded written
  record_first-Final = (
    s,
    r,
    asked-map ws,
    ap (λ (x : List UsageRecord). r ∷ x) (recorded-map ws),
    ap statuses (written-map ws) ∙ one,
    status,
    outcome,
    selected,
    final,
  )

  record_last-Final : Final last (map writes ws ++ records r ∷ [])
  unfolding asked recorded written
  record_last-Final = (
    s,
    r,
    asked-append (map writes ws) (records r ∷ []) ∙ ap (λ (x : List ℕ). x ++ []) (asked-map ws),
    recorded-append (map writes ws) (records r ∷ [])
        ∙ ap (λ (x : List UsageRecord). x ++ r ∷ []) (recorded-map ws),
    ap statuses (
          written-append (map writes ws) (records r ∷ [])
          ∙ ap (λ (x : List Write). x ++ []) (written-map ws)
          ∙ append-nil ws)
        ∙ one,
    status,
    outcome,
    selected,
    final,
  )

pub statuses-write_openai_error :
    (json : Json) (s : ℕ) (type code message : Text)
    → statuses (write_openai_error json s type code message) ≡ s ∷ []
unfolding statuses write_openai_error
statuses-write_openai_error json s type code message = refl

module _ (w : World) (cfg : Config) (started_at : Time) (envelope : Envelope) where
  pub give_up-Final :
      (n : ℕ) (state : AttemptState)
      → Final state.last_selected (give_up w cfg started_at envelope n state)
  unfolding give_up write_openai_upstream_error
  give_up-Final n state =
      record_first-Final state.last_selected 502
        (failure w cfg started_at envelope n state.last_selected 502 (codes "upstream_error"))
        (write_openai_upstream_error w.json state.last_err)
        (statuses-write_openai_error w.json 502 _ _ _) refl refl refl (inl refl)

  -- A relay that has asked nobody has no provider to tell; one that has asked has an error to pass on.
  abbrev pub IsPending : AttemptState → Type 0
  IsPending state =
      ((state.attempted ≡ []) × (state.last_selected ≡ none))
      ⊎ ((has_attempted state ≡ true) × (is_some state.last_err ≡ true))

  not_found-Final :
      (n : ℕ) (last : Option Selected) (e : SelectError)
      → last ≡ none
      → Final last (
          records (failure w cfg started_at envelope n none 503 (codes "model_not_found"))
          ∷ map writes (
              write_openai_error w.json 503
                (codes "invalid_request_error")
                (codes "model_not_found")
                (error_text w cfg started_at envelope e)))
  not_found-Final n last e h =
      record_first-Final last 503
        (failure w cfg started_at envelope n none 503 (codes "model_not_found"))
        (write_openai_error w.json 503 (codes "invalid_request_error") (codes "model_not_found")
          (error_text w cfg started_at envelope e))
        (statuses-write_openai_error w.json 503 _ _ _) refl refl (sym h) (inr (inl refl))

  pub no_selection-Final :
      (n : ℕ) (state : AttemptState) (e : SelectError)
      → IsPending state
      → Final state.last_selected (no_selection w cfg started_at envelope n state e)
  unfolding no_selection has_attempted
  no_selection-Final n state e (inr (tried, failing)) = rw (tried, failing) (give_up-Final n state)
  no_selection-Final n state e (inl (nobody, none')) =
      let b : has_attempted state ≡ false = unfold has_attempted in rw nobody refl in
      rw b (not_found-Final n state.last_selected e none')

  pub pass_on-Final :
      (n : ℕ) (selected : Selected) (resp : Response)
      → should_retry resp.status ≡ false
      → Final (some selected) (pass_on w cfg started_at envelope n selected resp)
  unfolding pass_on set_provider_headers
  pass_on-Final n selected resp fine =
      let (ws, t, e) = copy_upstream_response w.writer w.can_flush resp new_tracker in
      let copied = copy-status w.writer w.can_flush resp in
      let same : answer_status w cfg started_at envelope t resp ≡ resp.status =
        ground (arith, copied.1) in
      record_last-Final (some selected) resp.status
        (relayed w cfg started_at envelope n selected resp
          (answer_status w cfg started_at envelope t resp))
        (set_provider_headers cfg.instance_id selected ++ ws)
        (statuses-append (set_provider_headers cfg.instance_id selected) ws
          ∙ unfold statuses in copied.0)
        same (ap outcome_of same) refl (inr (inr fine))
