-- ===== src/Relay/Usage/Laws.antt =====
-- Request ids are clean.
use aether_code.Base.{
  ℕ, true, false, [], ◌∷◌, Text, nat_eq, keep, keep_sound, All, ◌≡◌, ◌≢◌, refl, ap, ◌∙◌, arith,
}
use aether_code.Text.{trim_space, is_space}
use aether_code.Text.Split.{Lacks, trim_space_of_Lacks}
use aether_code.Relay.Usage.{is_request_id_byte, request_or, sanitize_request_id}

-- A text of letters, digits, `-`, `_` and `:` that is not empty.
abbrev pub IsRequestId : Text → Type 0
IsRequestId t = (t ≢ []) × All (λ c. is_request_id_byte c ≡ true) t

keep-All : (t : Text) → All (λ c. is_request_id_byte c ≡ true) t → keep is_request_id_byte t ≡ t
unfolding keep
keep-All [] h = refl
keep-All (c ∷ t) h = rw h.0 (ap (λ (x : Text). c ∷ x) (keep-All t h.1))

no_space : (c : ℕ) → is_request_id_byte c ≡ true → is_space c ≡ false
no_space c h = ground (arith, h)

Lacks-space : (t : Text) → All (λ c. is_request_id_byte c ≡ true) t → Lacks is_space t
Lacks-space [] h = tt
Lacks-space (c ∷ t) h = (no_space c h.0, Lacks-space t h.1)

request_or-IsRequestId :
    (t : Text) → All (λ c. is_request_id_byte c ≡ true) t → IsRequestId (request_or t)
request_or-IsRequestId [] h = (λ e. cc, (refl, (refl, (refl, (refl, (refl, (refl, (refl, tt))))))))
request_or-IsRequestId (c ∷ t) h = (λ e. cc, h)

request_or-filled : (t : Text) → t ≢ [] → request_or t ≡ t
request_or-filled [] h = absurd (h refl)
request_or-filled (c ∷ t) h = refl

-- A sanitised request id is not empty and has only letters, digits, `-`, `_` and `:`; sanitising it again
-- changes nothing.
pub sanitize_request_id_lem :
    (value : Text)
    → let id = sanitize_request_id value in IsRequestId id × (sanitize_request_id id ≡ id)
unfolding sanitize_request_id
sanitize_request_id_lem value =
    let id = request_or (keep is_request_id_byte (trim_space value)) in
    let clean : IsRequestId id =
      request_or-IsRequestId (keep is_request_id_byte (trim_space value)) (
        keep_sound (λ c. is_request_id_byte c ≡ true) is_request_id_byte (trim_space value)
          (λ c h. h)) in
    (
      clean,
      ap (λ (t : Text). request_or (keep is_request_id_byte t))
            (trim_space_of_Lacks id (Lacks-space id clean.1))
          ∙ ap request_or (keep-All id clean.1)
          ∙ request_or-filled id clean.0,
    )
