-- ===== src/Routes/Dispatch/Laws.antt =====
-- Which route a request takes.
use aether_code.Base.{
  Bool, true, false, List, [], ◌∷◌, ◌++◌, Option, some, Text, ◌==◌, text_eq, text_beq_iff, keep,
  if◌then◌else◌, In, inl, inr, ◌⊎◌, ◌≡◌, ◌≢◌, refl, sym, ap, ◌∙◌, subst, Bool-cases, Option-cases,
  append_assoc, append-nil,
}
use aether_code.Text.{is_some}
use aether_code.Routes.{RelayRouteDescriptor}
use aether_code.Routes.Match.{match_route_path}
use aether_code.Routes.Dispatch.{Route, handled, unhandled, route_from}

module _ (unescape : Text → Option Text) (method path : Text) where
  abbrev pub is_matched : RelayRouteDescriptor → Bool
  is_matched r = is_some (match_route_path unescape r.path_pattern path)

  -- The route is the first descriptor of the table with the method whose pattern matches the path; where
  -- there is none, the descriptors whose pattern matches decide between 405 and 404.
  abbrev pub Decided : List RelayRouteDescriptor → List RelayRouteDescriptor → Route → Type 0
  Decided matched table out =
      ((before after : List RelayRouteDescriptor) × (r : RelayRouteDescriptor) × (params : List
          (Text × Text))
        × (table ≡ before ++ r ∷ after)
        × (match_route_path unescape r.path_pattern path ≡ some params)
        × (r.method ≡ method)
        × ((q : RelayRouteDescriptor) → In q before → is_matched q ≡ true → q.method ≢ method)
        × (out ≡ handled r params))
      ⊎ (((q : RelayRouteDescriptor) → In q table → is_matched q ≡ true → q.method ≢ method)
          × (out ≡ unhandled (matched ++ keep is_matched table)))

  -- One descriptor in front that does not answer the request.
  passed :
      (r : RelayRouteDescriptor) (rs matched : List RelayRouteDescriptor) (out : Route)
      → (is_matched r ≡ true → r.method ≢ method)
      → (next : List RelayRouteDescriptor)
      → next ++ keep is_matched rs ≡ matched ++ keep is_matched (r ∷ rs)
      → Decided next rs out
      → Decided matched (r ∷ rs) out
  passed r rs matched out other next same
        (inl (before, after, q, params, split, found, right, earlier, e)) =
      inl (
        r ∷ before,
        after,
        q,
        params,
        ap (λ (x : List RelayRouteDescriptor). r ∷ x) split,
        found,
        right,
        λ p i. elim i [
          | inl here ↦ λ m.
              subst (λ (x : RelayRouteDescriptor). x.method ≢ method) (sym here)
                (other (subst (λ (x : RelayRouteDescriptor). is_matched x ≡ true) here m))
          | inr there ↦ earlier p there
        ],
        e,
      )
  passed r rs matched out other next same (inr (nobody, e)) = inr (
    λ p i. elim i [
      | inl here ↦ λ m.
          subst (λ (x : RelayRouteDescriptor). x.method ≢ method) (sym here)
            (other (subst (λ (x : RelayRouteDescriptor). is_matched x ≡ true) here m))
      | inr there ↦ nobody p there
    ],
    e ∙ ap unhandled same,
  )

  keep-cons :
      (b : Bool) (r : RelayRouteDescriptor) (rs : List RelayRouteDescriptor)
      → is_matched r ≡ b
      → keep is_matched (r ∷ rs) ≡ (if b then r ∷ keep is_matched rs else keep is_matched rs)
  unfolding keep
  keep-cons b r rs e = rw e refl

  route_from-Decided :
      (table matched : List RelayRouteDescriptor)
      → Decided matched table (route_from unescape method path table matched)
  unfolding route_from
  route_from-Decided [] matched =
      inr (λ q i. elim i [ ], ap unhandled (sym (unfold keep in append-nil matched)))
  route_from-Decided (r ∷ rs) matched =
      elim (Option-cases (match_route_path unescape r.path_pattern path)) [
        | inl missed ↦ rw missed (
            passed r rs matched _ (λ m. absurd (clash (sym (ap is_some missed) ∙ m))) matched
              (ap (λ (x : List RelayRouteDescriptor). matched ++ x)
                (sym (keep-cons false r rs (ap is_some missed))))
              (route_from-Decided rs matched))
        | inr (params, found) ↦ rw found (elim (Bool-cases (r.method == method)) [
          | inl t ↦ rw t (
              inl (
                [],
                rs,
                r,
                params,
                refl,
                found,
                (text_beq_iff r.method method).0 t,
                (λ q i. elim i [ ]),
                refl,
              ))
          | inr f ↦ rw f (
              passed r rs matched _ (λ m e. clash (sym f ∙ (text_beq_iff r.method method).1 e))
                (matched ++ r ∷ [])
                (append_assoc matched (r ∷ []) (keep is_matched rs)
                  ∙ ap (λ (x : List RelayRouteDescriptor). matched ++ x)
                      (sym (keep-cons true r rs (ap is_some found))))
                (route_from-Decided rs (matched ++ r ∷ [])))
        ])
      ]
    where
      clash : ◌≡◌ {A = Bool} false true → ⊥
      clash e = cc

-- A request takes the first route of the table that has its method and whose pattern matches its path.
-- Where there is none, it is answered with 405 from the routes whose pattern matches, or with 404 if
-- there is no such route.
pub route-Decided :
    (unescape : Text → Option Text) (method path : Text) (table : List RelayRouteDescriptor)
    → Decided unescape method path [] table (route_from unescape method path table [])
route-Decided unescape method path table = route_from-Decided unescape method path table []
