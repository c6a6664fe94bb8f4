-- ===== src/Relay/Serve/Table.antt =====
-- The table of routes has only routes that the code can serve, and a listing has one status.
use aether_code.Base.{
  true, false, List, [], ◌∷◌, Option, none, some, Text, codes, ◌==◌, text_eq, text_beq,
  text_beq_iff, lookup, Bool-cases, All, inl, inr, ◌⊎◌, ◌≡◌, refl, sym, subst,
}
use aether_code.Text.{or_else}
use aether_code.Store.Cache.{Cache}
use aether_code.Store.Cache.Models.{ModelMetadata}
use aether_code.Http.{Json, statuses}
use aether_code.Http.Laws.{statuses-write_json}
use aether_code.Routes.{
  RelayRouteDescriptor, relay_route_matrix, status_implemented, status_metadata, status_unsupported,
}
use aether_code.Relay.Attempts.Laws.{statuses-write_openai_error}
use aether_code.Relay.Listings.{
  Listing, handle_model_metadata_route, write_openai_models, write_openai_model,
  write_gemini_models, write_found,
}

-- The answer of a listing has one status.
write_found-status :
    (json : Json) (encode : Listing → Text) (c : Cache) (o : Option ModelMetadata)
    → (statuses (write_found json encode c o) ≡ 200 ∷ [])
      ⊎ (statuses (write_found json encode c o) ≡ 404 ∷ [])
write_found-status json encode c none = inr (statuses-write_openai_error json 404 _ _ _)
write_found-status json encode c (some m) = inl (statuses-write_json 200 _)

-- A route that the code can serve.
abbrev pub IsServable : RelayRouteDescriptor → Type 0
IsServable r =
    ((r.implementation ≡ status_implemented)
      × ((r.implementation_id ≡ codes "chat_completions")
          ⊎ (r.implementation_id ≡ codes "completions")))
    ⊎ ((r.implementation ≡ status_metadata)
        × ((r.response_format ≡ codes "openai") ⊎ (r.response_format ≡ codes "gemini")))
    ⊎ (r.implementation ≡ status_unsupported)

infixr 20 ◌⨾◌
◌⨾◌ : {A B : Type 0} → A → B → A × B
a ⨾ b = (a, b)

pub matrix-IsServable : All IsServable relay_route_matrix
unfolding relay_route_matrix
matrix-IsServable =
    inl (refl, inl refl)
    ⨾ inl (refl, inr refl)
    ⨾ inr (inl (refl, inl refl))
    ⨾ inr (inl (refl, inl refl))
    ⨾ inr (inl (refl, inr refl))
    ⨾ inr (inl (refl, inl refl))
    ⨾ inr (inr refl)
    ⨾ inr (inr refl)
    ⨾ inr (inr refl)
    ⨾ inr (inr refl)
    ⨾ inr (inr refl)
    ⨾ inr (inr refl)
    ⨾ inr (inr refl)
    ⨾ inr (inr refl)
    ⨾ inr (inr refl)
    ⨾ inr (inr refl)
    ⨾ inr (inr refl)
    ⨾ inr (inr refl)
    ⨾ inr (inr refl)
    ⨾ inr (inr refl)
    ⨾ inr (inr refl)
    ⨾ inr (inr refl)
    ⨾ inr (inr refl)
    ⨾ tt

pub is : (a b : Text) → a ≡ b → (a == b) ≡ true
is a b e = (text_beq_iff a b).1 e

pub is_not : (a b c : Text) → a ≡ b → (b == c) ≡ false → (a == c) ≡ false
is_not a b c e f = subst (λ (x : Text). (x == c) ≡ false) (sym e) f

-- The words of the table differ.
pub metadata_differs : (status_metadata == status_implemented) ≡ false
unfolding text_beq
metadata_differs = refl

pub unsupported_differs :
    ((status_unsupported == status_implemented) ≡ false)
    × ((status_unsupported == status_metadata) ≡ false)
unfolding text_beq
unsupported_differs = (refl, refl)

pub completions_differs : (codes "completions" == codes "chat_completions") ≡ false
unfolding text_beq
completions_differs = refl

gemini_differs : (codes "gemini" == codes "openai") ≡ false
unfolding text_beq
gemini_differs = refl

-- A listing is answered with 200 or 404.
pub listing-status :
    (json : Json) (encode : Listing → Text) (c : Cache) (format : Text)
    (params : List (Text × Text))
    → (format ≡ codes "openai") ⊎ (format ≡ codes "gemini")
    → let ws = handle_model_metadata_route json encode c format params in
      (statuses ws ≡ 200 ∷ []) ⊎ (statuses ws ≡ 404 ∷ [])
unfolding handle_model_metadata_route write_openai_models write_openai_model write_gemini_models
listing-status json encode c format params (inl e) =
    rw (is format (codes "openai") e)
      (elim (Bool-cases (or_else (lookup (codes "model") params) [] == [])) [
        | inl t ↦ rw t (inl (statuses-write_json 200 _))
        | inr f ↦ rw f (write_found-status json encode c _)
      ])
listing-status json encode c format params (inr e) =
    rw
      (
        is_not format (codes "gemini") (codes "openai") e gemini_differs,
        is format (codes "gemini") e,
      )
      (inl (statuses-write_json 200 _))
