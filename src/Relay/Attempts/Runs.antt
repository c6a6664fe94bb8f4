-- ===== src/Relay/Attempts/Runs.antt =====
-- The whole loop: whom it asks, and the one answer and the one usage record that it ends with.
use aether_code.Base.{
  ℕ, zero, suc, ◌≤◌, true, List, [], ◌∷◌, ◌++◌, Option, none, some, Text, ◌==◌, nat_eq, text_eq,
  inl, inr, ◌≡◌, refl, sym, ap, ◌∙◌, arith, Bool-cases, Result, ok, err, length, append_assoc,
  ==_refl, subst,
}
use aether_code.Text.{trim_space}
use aether_code.Store.Capability.{normalize_endpoint_capability}
use aether_code.Store.Provider.{Time, Provider}
use aether_code.Store.Cache.Pick.Shares.{IsDraw}
use aether_code.Store.Cache.Select.Fresh.{IsServing, IsFresh, select-IsFresh}
use aether_code.Http.{Write, statuses}
use aether_code.Relay.Body.{
  Envelope, encode_for, openai_endpoint_capability, openai_compatible_format,
}
use aether_code.Relay.Response.{Response}
use aether_code.Relay.Attempts.{
  World, Config, Event, sends, drains, UsageRecord, Selected, AttemptState, should_retry,
  has_attempted, attempt_once, attempts, and_then, before, give_up, no_selection, pass_on,
  after_send, relay_openai_compatible, attempts_allowed, new_attempt_state,
}
use aether_code.Relay.Attempts.Laws.{
  asked, recorded, written, asked-append, recorded-append, written-append, outcome_of, Final,
  IsPending, give_up-Final, no_selection-Final, pass_on-Final, IsFinalStatus, id_of,
}

-- The last of some ids, after an earlier one.
abbrev pub latest : Option ℕ → List ℕ → Option ℕ
latest earlier [] = earlier
latest earlier (id ∷ ids) = latest (some id) ids

module _ (w : World) (cfg : Config) (started_at : Time) (envelope : Envelope) where
  -- At each attempt the provider that is asked is fresh for the cache of that attempt.
  abbrev pub AskFresh : ℕ → List ℕ → List ℕ → Type 0
  AskFresh n seen [] = Unit
  AskFresh n seen (id ∷ ids) =
      ((p : Provider) × (p.id ≡ id)
        × IsFresh (w.cache n) (trim_space envelope.body.model)
            (normalize_endpoint_capability (openai_endpoint_capability envelope.kind)) seen p)
      × AskFresh (suc n) (id ∷ seen) ids

  -- The events of a relay with some attempts left: tries that send the client nothing, then an answer.
  abbrev pub IsRun : ℕ → ℕ → List ℕ → Option ℕ → List Event → Type 0
  IsRun left n seen earlier es =
      (tries answer : List Event) × (s : ℕ) × (r : UsageRecord) × (es ≡ tries ++ answer)
      × (written tries ≡ [])
      × (asked answer ≡ [])
      × (recorded es ≡ r ∷ [])
      × (statuses (written es) ≡ s ∷ [])
      × (r.status_code ≡ s)
      × (r.outcome ≡ outcome_of s)
      × (id_of r.selected ≡ latest earlier (asked es))
      × IsFinalStatus s
      × (length (asked es) ≤ left)
      × AskFresh n seen (asked es)

  abbrev Runs : ℕ → ℕ → List ℕ → Option ℕ → Option (List Event) → Type 0
  Runs left n seen earlier out = (es : List Event) × (out ≡ some es) × IsRun left n seen earlier es

  Final-IsRun :
      (left n : ℕ) (seen : List ℕ) (last : Option Selected) (es : List Event)
      → Final last es
      → IsRun left n seen (id_of last) es
  unfolding written
  Final-IsRun left n seen last es (s, r, nobody, one, answered, status, outcome, told, final) = (
    [],
    es,
    s,
    r,
    refl,
    refl,
    nobody,
    one,
    answered,
    status,
    outcome,
    ap id_of told ∙ ap (latest (id_of last)) (sym nobody),
    final,
    rw nobody (omega arith),
    rw nobody tt,
  )

  -- One try in front of a run.
  module _ (id : ℕ) (try : List Event) (asks : asked try ≡ id ∷ []) (silent : recorded try ≡ [])
      (unwritten : written try ≡ []) where
    retried-IsRun :
        (left n : ℕ) (seen : List ℕ) (earlier : Option ℕ) (p : Provider) (es : List Event)
        → p.id ≡ id
        → IsFresh
            (w.cache n)
            (trim_space envelope.body.model)
            (normalize_endpoint_capability (openai_endpoint_capability envelope.kind))
            seen
            p
        → IsRun left (suc n) (id ∷ seen) (some id) es
        → IsRun (suc left) n seen earlier (try ++ es)
    retried-IsRun left n seen earlier p es same fresh
          (
            tries, answer, s, r, whole, quiet, nobody, one, answered, status, outcome, told, final,
            bound, more,
          ) =
        let all_asked : asked (try ++ es) ≡ id ∷ asked es =
          asked-append try es ∙ ap (λ (x : List ℕ). x ++ asked es) asks in
        (
          try ++ tries,
          answer,
          s,
          r,
          ap (λ (x : List Event). try ++ x) whole ∙ sym (append_assoc try tries answer),
          written-append try tries ∙ ap (λ (x : List Write). x ++ written tries) unwritten ∙ quiet,
          nobody,
          recorded-append try es ∙ ap (λ (x : List UsageRecord). x ++ recorded es) silent ∙ one,
          ap statuses (written-append try es ∙ ap (λ (x : List Write). x ++ written es) unwritten)
              ∙ answered,
          status,
          outcome,
          told ∙ ap (latest earlier) (sym all_asked),
          final,
          rw all_asked (omega (arith, bound)),
          rw all_asked ((p, same, fresh), more),
        )

    answered-IsRun :
        (left n : ℕ) (seen : List ℕ) (earlier : Option ℕ) (p : Provider) (last : Selected)
        (es : List Event)
        → p.id ≡ id
        → last.provider.id ≡ id
        → IsFresh
            (w.cache n)
            (trim_space envelope.body.model)
            (normalize_endpoint_capability (openai_endpoint_capability envelope.kind))
            seen
            p
        → Final (some last) es
        → IsRun (suc left) n seen earlier (try ++ es)
    answered-IsRun left n seen earlier p last es same told fresh final =
        retried-IsRun left n seen earlier p es same fresh (
          subst (λ (x : ℕ). IsRun left (suc n) (id ∷ seen) (some x) es) told
            (Final-IsRun left (suc n) (id ∷ seen) (some last) es final))

  module _ (draws : (n : ℕ) → IsDraw (w.intn n))
      (serves : (n : ℕ) → IsServing (w.cache n) (trim_space envelope.body.model)) where
    before-Runs :
        (id : ℕ) (try : List Event) (left n : ℕ) (seen : List ℕ) (earlier : Option ℕ) (p : Provider)
        (out : Option (List Event))
        → asked try ≡ id ∷ []
        → recorded try ≡ []
        → written try ≡ []
        → p.id ≡ id
        → IsFresh
            (w.cache n)
            (trim_space envelope.body.model)
            (normalize_endpoint_capability (openai_endpoint_capability envelope.kind))
            seen
            p
        → Runs left (suc n) (id ∷ seen) (some id) out
        → Runs (suc left) n seen earlier (before try out)
    before-Runs id try left n seen earlier p out asks silent unwritten same fresh (es, e, run) = (
      try ++ es,
      ap (before try) e,
      retried-IsRun id try asks silent unwritten left n seen earlier p es same fresh run,
    )

    -- What follows the choice of a provider.
    sent-Runs :
        (left n : ℕ) (seen : List ℕ) (earlier : Option ℕ) (p : Provider) (selected : Selected)
        (state : AttemptState) (body : Result Text Text) (rest : AttemptState → Option (List Event))
        (reply : Result Text Response)
        → selected.provider ≡ p
        → IsFresh
            (w.cache n)
            (trim_space envelope.body.model)
            (normalize_endpoint_capability (openai_endpoint_capability envelope.kind))
            seen
            p
        → ((e : Text)
            → Runs left
                (suc n)
                (p.id ∷ seen)
                (some p.id)
                (rest (record state { last_err = some e })))
        → Runs (suc left) n seen earlier (
            and_then
              (after_send w cfg started_at envelope n selected state (sends p.id body) reply)
              rest)
    unfolding asked recorded written
    sent-Runs left n seen earlier p selected state body rest (err e) told fresh next =
        before-Runs p.id (sends p.id body ∷ []) left n seen earlier p _ refl refl refl refl fresh
          (next e)
    sent-Runs left n seen earlier p selected state body rest (ok resp) told fresh next =
        elim (Bool-cases (should_retry resp.status)) [
          | inl t ↦ rw t (
              before-Runs p.id (sends p.id body ∷ drains ∷ []) left n seen earlier p _ refl refl
                refl refl fresh (next _))
          | inr f ↦ rw f (
            _,
            refl,
            answered-IsRun p.id (sends p.id body ∷ []) refl refl refl left n seen earlier p selected
                (pass_on w cfg started_at envelope n selected resp) refl
                (ap (λ (q : Provider). q.id) told) fresh
                (pass_on-Final w cfg started_at envelope n selected resp f),
          )
        ]

    attempts-Runs :
        (left n : ℕ) (state : AttemptState)
        → IsPending w cfg started_at envelope state
        → Runs left n state.attempted
            (id_of state.last_selected)
            (attempts w cfg started_at envelope left n state)
    unfolding attempts attempt_once has_attempted
    attempts-Runs zero n state pending = (
      give_up w cfg started_at envelope n state,
      refl,
      Final-IsRun zero n state.attempted state.last_selected _
          (give_up-Final w cfg started_at envelope n state),
    )
    attempts-Runs (suc left) n state pending =
        elim (select-IsFresh (w.intn n) (w.cache n) envelope.body.model
          (openai_endpoint_capability envelope.kind) state.attempted (draws n) (serves n)) [
            | inl (e, chosen) ↦ rw chosen (
              no_selection w cfg started_at envelope n state e,
              refl,
              Final-IsRun (suc left) n state.attempted state.last_selected _
                  (no_selection-Final w cfg started_at envelope n state e pending),
            )
            | inr (p, chosen, fresh) ↦ rw chosen (
                sent-Runs left n state.attempted (id_of state.last_selected) p
                  (record {
                    provider = p;
                    version = w.version n;
                    request_model = envelope.body.model;
                  })
                  (record state {
                    attempted = p.id ∷ state.attempted;
                    last_selected = some (record {
                      provider = p;
                      version = w.version n;
                      request_model = envelope.body.model;
                    });
                  })
                  (encode_for w.json envelope.body p envelope.body.model)
                  (attempts w cfg started_at envelope left (suc n)) _ refl fresh
                  (λ e.
                    attempts-Runs left (suc n)
                      (record {
                        attempted = p.id ∷ state.attempted;
                        last_err = some e;
                        last_selected = some (record {
                          provider = p;
                          version = w.version n;
                          request_model = envelope.body.model;
                        });
                      })
                      (inr (ground arith, refl))))
          ]

    -- A relay of the supported format does not panic. It asks at most `MaxRetries + 1` providers (none if
    -- `MaxRetries` is negative), each one enabled, able to serve the endpoint, listed for the model in
    -- the cache of its attempt, and not asked before. The client sees nothing before the last of them
    -- has been asked, and then one status: 502, 503 or one that is not retried. There is one usage
    -- record, with that status, the outcome that it means, and the provider asked last. Each draw below
    -- `n` is below `n`, and each attempt's cache serves the model.
    pub relay-IsRun :
        envelope.format ≡ openai_compatible_format
        → (es : List Event) × (relay_openai_compatible w cfg started_at envelope ≡ some es)
          × IsRun (attempts_allowed cfg.max_retries) 0 [] none es
    unfolding relay_openai_compatible
    relay-IsRun supported =
        let known : (envelope.format == openai_compatible_format) ≡ true =
          ap (λ (f : Text). f == openai_compatible_format) supported
          ∙ ==_refl openai_compatible_format in
        rw known
          (attempts-Runs (attempts_allowed cfg.max_retries) 0 new_attempt_state (inl (refl, refl)))
