-- ===== src/Relay/Handler/Laws.antt =====
-- Each request has one answer, and each authenticated one has one usage record with the same status.
use aether_code.Base.{
  ℕ, List, [], ◌∷◌, map, Option, some, Text, codes, ◌==◌, text_eq, text_beq_iff, ok, err,
  Result-cases, inl, inr, ◌⊎◌, ◌≡◌, ◌≢◌, refl, ap, ◌∙◌, Bool-cases,
}
use aether_code.Text.{trim_space}
use aether_code.Store.Provider.{Time}
use aether_code.Keys.{AuthIdentity}
use aether_code.Store.Cache.Pick.Shares.{IsDraw}
use aether_code.Store.Cache.Select.Fresh.{IsServing}
use aether_code.Http.{Write, statuses, write_openai_error, sets_header}
use aether_code.Relay.Body.{Kind, Envelope, openai_compatible_envelope}
use aether_code.Relay.Body.Laws.{envelope-IsAccepted}
use aether_code.Relay.Attempts.{World, Config, Event, writes, UsageRecord}
use aether_code.Relay.Attempts.Laws.{
  asked, recorded, written, written-map, recorded-map, asked-map, statuses-write_openai_error,
}
use aether_code.Relay.Attempts.Runs.{relay-IsRun}
use aether_code.Relay.Handler.{Request, openai_route, after_auth, after_envelope, validation_record}

-- The one status of the answer.
abbrev pub IsAnswered : ℕ → List Event → Type 0
IsAnswered s es = statuses (written es) ≡ s ∷ []

-- A refusal: no usage record, and nobody is asked.
abbrev pub IsRefused : ℕ → List Event → Type 0
IsRefused s es = IsAnswered s es × (recorded es ≡ []) × (asked es ≡ [])

-- An answer with one usage record of the same status.
abbrev pub IsRecorded : List Event → Type 0
IsRecorded es =
    (s : ℕ) × (r : UsageRecord) × IsAnswered s es × (recorded es ≡ r ∷ []) × (r.status_code ≡ s)

pub refusal : (s : ℕ) (ws : List Write) → statuses ws ≡ s ∷ [] → IsRefused s (map writes ws)
refusal s ws h = (ap statuses (written-map ws) ∙ h, recorded-map ws, asked-map ws)

module _ (w : World) (cfg : Config) (started_at : Time) (kind : Kind)
    (draws : (n : ℕ) → IsDraw (w.intn n))
    (serves : (n : ℕ) (model : Text) → IsServing (w.cache n) model) where
  abbrev pub Recorded : Option (List Event) → Type 0
  Recorded out = (es : List Event) × (out ≡ some es) × IsRecorded es

  envelope-Recorded :
      (body : Option Text)
      → Recorded (
          after_envelope w cfg started_at kind
            (openai_compatible_envelope w.json cfg.max_body_bytes body kind))
  unfolding recorded written
  envelope-Recorded body =
      elim (Result-cases (openai_compatible_envelope w.json cfg.max_body_bytes body kind)) [
        | inl (envelope, made) ↦
            let (bytes, request, raw, model, _, _, _, _, _, _, same) =
              envelope-IsAccepted w.json cfg.max_body_bytes kind body made in
            let (es, out, run) =
              relay-IsRun w cfg started_at envelope draws
                (λ n. serves n (trim_space envelope.body.model))
                (ap (λ (e : Envelope). e.format) same) in
            let (_, _, s, r, _, _, _, one, answered, status, _, _, _, _, _) = run in
            rw made (es, out, (s, r, answered, one, status))
        | inr (e, refused) ↦ rw refused (
          _,
          refl,
          (
            e.status,
            validation_record w cfg started_at kind e,
            ap statuses (written-map (write_openai_error w.json e.status e.type e.code e.message))
                ∙ statuses-write_openai_error w.json e.status e.type e.code e.message,
            ap (λ (x : List UsageRecord). validation_record w cfg started_at kind e ∷ x)
                (recorded-map (write_openai_error w.json e.status e.type e.code e.message)),
            refl,
          ),
        )
      ]

  -- A request that is not a POST is answered with 405, and one that fails the authentication with 401,
  -- both without a usage record and without asking a provider. Every other request is answered with one
  -- status and recorded once, with that status. The handler does not panic: each draw below `n` is below
  -- `n`, and the cache of each attempt serves every model.
  pub openai_route-answers :
      (r : Request)
      → (es : List Event) × (openai_route w cfg started_at kind r ≡ some es)
        × (((r.method ≢ codes "POST") × IsRefused 405 es)
            ⊎ ((r.method ≡ codes "POST") × (e : Text) × (r.auth ≡ err e) × IsRefused 401 es)
            ⊎ ((r.method ≡ codes "POST")
                × (i : Option AuthIdentity) × (r.auth ≡ ok i)
                × IsRecorded es))
  unfolding openai_route statuses
  openai_route-answers r = elim (Bool-cases (r.method == codes "POST")) [
    | inr f ↦ rw f (
      _,
      refl,
      inl (
        λ e. cc (f, (text_beq_iff r.method (codes "POST")).1 e),
        refusal 405
            (sets_header (codes "Allow") (codes "POST")
              ∷ write_openai_error w.json 405 (codes "invalid_request_error")
                  (codes "method_not_allowed") (codes "method not allowed"))
            (statuses-write_openai_error w.json 405 _ _ _),
      ),
    )
    | inl t ↦
        let post = (text_beq_iff r.method (codes "POST")).0 t in
        elim (Result-cases r.auth) [
          | inr (e, bad) ↦ rw t (
            _,
            ap (after_auth w cfg started_at kind r.body) bad,
            inr (
                inl (
                  post,
                  e,
                  bad,
                  refusal 401
                      (write_openai_error w.json 401 (codes "invalid_request_error")
                        (codes "unauthorized") e)
                      (statuses-write_openai_error w.json 401 _ _ _),
                )),
          )
          | inl (i, good) ↦
              let (es, out, h) = envelope-Recorded r.body in
              rw t (
                es,
                ap (after_auth w cfg started_at kind r.body) good ∙ out,
                inr (inr (post, i, good, h)),
              )
        ]
  ]
