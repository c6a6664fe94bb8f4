-- ===== src/Relay/Serve/Laws.antt =====
-- Every request has one answer, and only one that is authenticated gets past the table of routes.
use aether_code.Base.{
  ℕ, List, [], ◌∷◌, map, Option, some, Text, codes, text_eq, Result, ok, err, Result-cases, All-In,
  In, In-append_right, inl, inr, ◌⊎◌, ◌≡◌, refl, sym, ap, ◌∙◌, subst,
}
use aether_code.Store.Provider.{Time}
use aether_code.Store.Cache.{Cache}
use aether_code.Store.Cache.Pick.Shares.{IsDraw}
use aether_code.Store.Cache.Select.Fresh.{IsServing}
use aether_code.Keys.{AuthIdentity}
use aether_code.Http.{statuses, write_openai_error, http_not_found}
use aether_code.Http.Laws.{statuses-write_json, statuses-http_error}
use aether_code.Routes.{RelayRouteDescriptor, relay_route_matrix}
use aether_code.Routes.Dispatch.{unhandled, write_method_not_allowed}
use aether_code.Routes.Dispatch.Laws.{route-Decided}
use aether_code.Relay.Body.{Kind, chat_completions, completions}
use aether_code.Relay.Attempts.{World, Config, Event, writes, UsageRecord}
use aether_code.Relay.Attempts.Laws.{
  recorded, written, written-map, recorded-map, statuses-write_openai_error,
}
use aether_code.Relay.Handler.{Request, openai_route}
use aether_code.Relay.Handler.Laws.{IsRefused, IsRecorded, refusal, openai_route-answers}
use aether_code.Relay.Listings.{Listing, handle_model_metadata_route}
use aether_code.Relay.Serve.{
  handle_implemented_relay_route, handle_relay_route, if_authenticated, unsupported_record,
  write_unsupported_endpoint, dispatched, relay_route_handler,
}
use aether_code.Relay.Serve.Table.{
  IsServable, matrix-IsServable, is, is_not, metadata_differs, unsupported_differs,
  completions_differs, listing-status,
}

module _ (w : World) (cfg : Config) (encode_listing : Listing → Text)
    (encode_unsupported : RelayRouteDescriptor → Text) (listed : Cache) (now : Time)
    (draws : (n : ℕ) → IsDraw (w.intn n))
    (serves : (n : ℕ) (model : Text) → IsServing (w.cache n) model) where
  -- A request that fails the authentication gets 401, 404 or 405; one that passes may also get a listing, or
  -- the answer of an endpoint, which is recorded.
  abbrev pub IsServed : Request → List Event → Type 0
  IsServed r es =
      ((k : ℕ) × IsRefused k es
        × ((k ≡ 404)
            ⊎ (k ≡ 405)
            ⊎ ((k ≡ 401) × ((e : Text) × (r.auth ≡ err e)))
            ⊎ ((k ≡ 200) × ((i : Option AuthIdentity) × (r.auth ≡ ok i)))))
      ⊎ (((i : Option AuthIdentity) × (r.auth ≡ ok i)) × IsRecorded es)

  abbrev pub Serves : Request → Option (List Event) → Type 0
  Serves r out = (es : List Event) × (out ≡ some es) × IsServed r es

  openai-Serves : (kind : Kind) (r : Request) → Serves r (openai_route w cfg now kind r)
  openai-Serves kind r =
      let (es, out, h) = openai_route-answers w cfg now kind draws serves r in
      (
        es,
        out,
        elim h [
          | inl (_, refused) ↦ inl (405, refused, inr (inl refl))
          | inr (inl (_, e, bad, refused)) ↦ inl (401, refused, inr (inr (inl (refl, (e, bad)))))
          | inr (inr (_, i, good, answered)) ↦ inr ((i, good), answered)
        ],
      )

  if_authenticated-Serves :
      (r : Request) (events : List Event)
      → ((i : Option AuthIdentity) → r.auth ≡ ok i → IsServed r events)
      → Serves r (if_authenticated w cfg encode_listing encode_unsupported listed now r.auth events)
  if_authenticated-Serves r events next = elim (Result-cases r.auth) [
    | inl (i, good) ↦ (
      events,
      ap
          (λ (x : Result Text (Option AuthIdentity)).
            if_authenticated w cfg encode_listing encode_unsupported listed now x events)
          good,
      next i good,
    )
    | inr (e, bad) ↦
        let ws =
          write_openai_error w.json 401 (codes "invalid_request_error") (codes "unauthorized") e in
        (
          map writes ws,
          ap
              (λ (x : Result Text (Option AuthIdentity)).
                if_authenticated w cfg encode_listing encode_unsupported listed now x events)
              bad,
          inl (
            401,
            refusal 401 ws (statuses-write_openai_error w.json 401 _ _ _),
            inr (inr (inl (refl, (e, bad)))),
          ),
        )
  ]

  handle_relay_route-Serves :
      (r : Request) (descriptor : RelayRouteDescriptor) (params : List (Text × Text))
      → IsServable descriptor
      → Serves r (
          handle_relay_route w cfg encode_listing encode_unsupported listed now r descriptor params)
  unfolding handle_relay_route handle_implemented_relay_route recorded written
      write_unsupported_endpoint
  handle_relay_route-Serves r descriptor params (inl (e, inl id)) =
      rw (is _ _ e, is _ _ id) (openai-Serves chat_completions r)
  handle_relay_route-Serves r descriptor params (inl (e, inr id)) =
      rw (is _ _ e, is_not _ _ _ id completions_differs, is _ _ id) (openai-Serves completions r)
  handle_relay_route-Serves r descriptor params (inr (inl (e, format))) =
      rw (is_not _ _ _ e metadata_differs, is _ _ e)
        (if_authenticated-Serves r _ (λ i good.
          let ws =
            handle_model_metadata_route w.json encode_listing listed descriptor.response_format
              params in
          elim (listing-status w.json encode_listing listed descriptor.response_format params
            format) [
              | inl ok_status ↦
                  inl (200, refusal 200 ws ok_status, inr (inr (inr (refl, (i, good)))))
              | inr missing ↦ inl (404, refusal 404 ws missing, inl refl)
            ]))
  handle_relay_route-Serves r descriptor params (inr (inr e)) =
      rw (is_not _ _ _ e unsupported_differs.0, is_not _ _ _ e unsupported_differs.1, is _ _ e)
        (if_authenticated-Serves r _ (λ i good. inr (
          (i, good),
          let ws =
                write_unsupported_endpoint w cfg encode_listing encode_unsupported listed now
                  descriptor in
              let mine =
                unsupported_record w cfg encode_listing encode_unsupported listed now descriptor in
              (
                501,
                mine,
                ap statuses (written-map ws)
                    ∙ statuses-write_json 501 (encode_unsupported descriptor),
                ap (λ (x : List UsageRecord). mine ∷ x) (recorded-map ws),
                refl,
              ),
        )))

  unhandled-Serves :
      (r : Request) (matched : List RelayRouteDescriptor)
      → Serves r
          (dispatched w cfg encode_listing encode_unsupported listed now r (unhandled matched))
  unfolding http_not_found write_method_not_allowed statuses
  unhandled-Serves r [] =
      let ws = http_not_found in
      (
        map writes ws,
        refl,
        inl (404, refusal 404 ws (statuses-http_error (codes "404 page not found") 404), inl refl),
      )
  unhandled-Serves r (m ∷ ms) =
      let ws = write_method_not_allowed w.json (m ∷ ms) in
      (
        map writes ws,
        refl,
        inl (405, refusal 405 ws (statuses-write_openai_error w.json 405 _ _ _), inr (inl refl)),
      )

  -- Every request that reaches the handler of the relay's routes, which has the paths that neither the two
  -- probes nor the administration have, is answered with one status and no panic. One that fails the
  -- authentication is answered with 401, 404 or 405, asks no provider and leaves no usage record. One that
  -- passes may also be answered with 404 or 405 in the same way or with a listing, or else has one usage
  -- record with the status of the answer. Each draw below `n` is below `n`, and the cache of each attempt
  -- serves every model.
  pub relay_route_handler-Serves :
      (unescape : Text → Option Text) (path : Text) (r : Request)
      → Serves r
          (relay_route_handler w cfg encode_listing encode_unsupported listed now unescape path r)
  unfolding relay_route_handler
  relay_route_handler-Serves unescape path r =
      elim (route-Decided unescape r.method path relay_route_matrix) [
        | inl (before, after, descriptor, params, split, _, _, _, out) ↦ rw out (
            handle_relay_route-Serves r descriptor params (
              All-In IsServable descriptor relay_route_matrix matrix-IsServable (
                subst (λ (table : List RelayRouteDescriptor). In descriptor table) (sym split)
                  (In-append_right descriptor before (descriptor ∷ after) (inl refl)))))
        | inr (_, out) ↦ rw out (unhandled-Serves r _)
      ]
