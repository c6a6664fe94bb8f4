-- ===== src/Relay/Body/Laws.antt =====
-- Which requests pass the checks, and what an upstream reads in the body that is sent to it.
use aether_code.Base.{
  subst, Bool, true, HasDistinctKeys, insert-HasDistinctKeys, ◌≤◌, not, List, [], ◌∷◌, Option, none,
  some, Text, codes, ◌==◌, text_eq, text_beq_iff, keep, if◌then◌else◌, insert, lookup,
  lookup-insert, Result, ok, err, inl, inr, ◌≡◌, ◌≢◌, refl, sym, ap, ◌∙◌, arith, Bool-cases,
  Option-cases, Result-cases, ok-injective, ltb, length, ℤ, pos_part,
}
use aether_code.Text.{trim_space}
use aether_code.Store.Provider.{Provider, upstream_model}
use aether_code.Http.{Json}
use aether_code.Relay.Body.{
  Kind, Envelope, ValidationError, model_key, group_key, new_replayable_body, model_from_request,
  model_of_field, model_of_string, with_model, with_request, with_body, read_body, encode_for,
  openai_compatible_envelope, openai_compatible_format,
}

lookup-keep :
    (skipped k : Text) (m : List (Text × Text))
    → lookup k (keep (λ field. not (field.0 == skipped)) m)
      ≡ (if k == skipped then none else lookup k m)
unfolding lookup keep
lookup-keep skipped k [] = ground arith
lookup-keep skipped k ((j, v) ∷ m) = ground (
  arith,
  text_beq_iff j skipped,
  text_beq_iff j k,
  text_beq_iff k skipped,
  lookup-keep skipped k m,
)

lookup_differs : (a b : Option Text) {v : Text} → a ≡ none → a ≡ b → b ≡ some v → ⊥
lookup_differs a b h e k = cc

keep-HasDistinctKeys :
    (skipped : Text) (m : List (Text × Text))
    → HasDistinctKeys m
    → HasDistinctKeys (keep (λ field. not (field.0 == skipped)) m)
unfolding keep
keep-HasDistinctKeys skipped [] d = tt
keep-HasDistinctKeys skipped ((k, v) ∷ m) d = elim (Bool-cases (k == skipped)) [
  | inl t ↦ rw t (keep-HasDistinctKeys skipped m d.1)
  | inr f ↦ rw f (lookup-keep skipped k m ∙ rw (f, d.0) refl, keep-HasDistinctKeys skipped m d.1)
]

abbrev pub compacted : (Text → Text) → Option Text → Option Text
compacted compact none = none
compacted compact (some raw) = some (compact raw)

-- Every key of the object is valid.
abbrev pub HasValidKeys : (Text → Bool) → List (Text × Text) → Type 0
HasValidKeys valid m = (k v : Text) → lookup k m ≡ some v → valid k ≡ true

-- What the body relies on of `encoding/json`. `valid` is `utf8.ValidString`, and `compact` is what is written
-- of a raw value: the value without white space and with some characters of its strings escaped.
pub record IsCodec (json : Json) (valid : Text → Bool) (compact : Text → Text) : Type 0 where
  -- An object that is read has each key once, and its keys are valid.
  pub distinct :
      (text : Text) (m : List (Text × Text)) → json.decode_object text ≡ some m → HasDistinctKeys m
  pub valid_keys :
      (text : Text) (m : List (Text × Text))
      → json.decode_object text ≡ some m
      → HasValidKeys valid m
  pub valid_model : valid model_key ≡ true
  -- An object that is written is read with the same keys, and with its values in compact form.
  pub back :
      (m : List (Text × Text)) (text : Text)
      → HasDistinctKeys m
      → HasValidKeys valid m
      → json.encode_object m ≡ ok text
      → (fields : List (Text × Text)) × (json.decode_object text ≡ some fields)
        × ((k : Text) → lookup k fields ≡ compacted compact (lookup k m))
  -- A string is written in compact form.
  pub compact_string : (s : Text) → compact (json.encode_string s) ≡ json.encode_string s

-- The body that is sent to a provider is an object with the provider's own name for the model, without
-- `group`, and with every other field that the client has sent, in compact form, and no more. The request
-- is the object that was read, and the JSON codec does as its record says.
pub encode_for-fields :
    (json : Json) (valid : Text → Bool) (compact : Text → Text) (bytes : Text)
    (request : List (Text × Text)) (p : Provider) (model : Text) {text : Text}
    → IsCodec json valid compact
    → json.decode_object bytes ≡ some request
    → encode_for json (new_replayable_body request model) p model ≡ ok text
    → (fields : List (Text × Text)) × (json.decode_object text ≡ some fields)
      × ((k : Text)
          → lookup k fields ≡ (
              if k == model_key
              then some (json.encode_string (upstream_model p model))
              else if k == group_key
              then none
              else compacted compact (lookup k request)))
unfolding encode_for new_replayable_body
encode_for-fields json valid compact bytes request p model {text} codec read h =
    let sent = keep (λ field. not (field.0 == group_key)) request in
    let name = json.encode_string (upstream_model p model) in
    let (fields, written, same) =
      codec.back (insert model_key name sent) text
        (insert-HasDistinctKeys model_key name sent
          (keep-HasDistinctKeys group_key request (codec.distinct bytes request read)))
        (sent-valid name) h in
    (
      fields,
      written,
      λ k.
          same k
          ∙ ap (λ (o : Option Text). compacted compact o) (lookup-insert model_key k name sent)
          ∙ ground (
            arith,
            text_beq_iff model_key k,
            text_beq_iff k model_key,
            lookup-keep group_key k request,
            codec.compact_string (upstream_model p model),
          ),
    )
  where
    sent-valid :
        (name : Text)
        → HasValidKeys valid
            (insert model_key name (keep (λ field. not (field.0 == group_key)) request))
    sent-valid name k v found =
        let old = codec.valid_keys bytes request read k v in
        let there : (if model_key == k
              then some name
              else if k == group_key
              then none
              else lookup k request)
            ≡ some v =
          sym (
            lookup-insert model_key k name (keep (λ field. not (field.0 == group_key)) request)
            ∙ ap (λ (o : Option Text). if model_key == k then some name else o)
                (lookup-keep group_key k request))
          ∙ found in
        elim (Bool-cases (model_key == k)) [
          | inl t ↦
              subst (λ (x : Text). valid x ≡ true) ((text_beq_iff model_key k).0 t)
                codec.valid_model
          | inr f ↦ old (ground arith)
        ]

-- What an accepted request has.
abbrev pub IsAccepted : Json → ℤ → Option Text → Kind → Envelope → Type 0
IsAccepted json max_bytes sent kind e =
    (bytes : Text) × (request : List (Text × Text)) × (raw : Text) × (model : Text) × (sent
      ≡ some bytes)
    × (length bytes ≤ pos_part max_bytes)
    × (json.decode_object bytes ≡ some request)
    × (lookup model_key request ≡ some raw)
    × (json.decode_string raw ≡ some model)
    × (trim_space model ≢ [])
    × (e ≡ record {
      format = openai_compatible_format;
      kind = kind;
      body = new_replayable_body request (trim_space model);
    })

-- What a request with a model has.
abbrev HasModel : Json → List (Text × Text) → Text → Type 0
HasModel json request trimmed =
    (raw : Text) × (model : Text) × (lookup model_key request ≡ some raw)
    × (json.decode_string raw ≡ some model)
    × (trim_space model ≢ [])
    × (trimmed ≡ trim_space model)

no_model : {A : Type 0} {x m : Text} → ◌≡◌ {A = Result Text Text} (err x) (ok m) → A
no_model h = cc

module _ (json : Json) where
  model_from_request-HasModel :
      (request : List (Text × Text)) {trimmed : Text}
      → model_from_request json request ≡ ok trimmed
      → HasModel json request trimmed
  unfolding model_from_request
  model_from_request-HasModel request {trimmed} h = elim (Option-cases (lookup model_key request)) [
    | inl absent ↦ no_model (sym (ap (model_of_field json) absent) ∙ h)
    | inr (raw, there) ↦
        let h1 : model_of_string json (json.decode_string raw) ≡ ok trimmed =
          sym (ap (model_of_field json) there) ∙ h in
        elim (Option-cases (json.decode_string raw)) [
          | inl bad ↦ no_model (sym (ap (model_of_string json) bad) ∙ h1)
          | inr (model, text) ↦
              let h2 : model_of_string json (some model) ≡ ok trimmed =
                sym (ap (model_of_string json) text) ∙ h1 in
              elim (Bool-cases (trim_space model == [])) [
                | inl blank ↦
                    let bad : model_of_string json (some model)
                        ≡ err (codes "field model must be a non-empty string") =
                      rw blank refl in
                    no_model (sym bad ∙ h2)
                | inr named ↦
                    let fine : model_of_string json (some model) ≡ ok (trim_space model) =
                      rw named refl in
                    (
                      raw,
                      model,
                      there,
                      text,
                      λ x. cc (named, (text_beq_iff (trim_space model) []).1 x),
                      sym (ok-injective (sym fine ∙ h2)),
                    )
              ]
        ]
  ]

refused :
    {A : Type 0} {x : ValidationError} {e : Envelope}
    → ◌≡◌ {A = Result ValidationError Envelope} (err x) (ok e)
    → A
refused h = cc

module _ (json : Json) (max_bytes : ℤ) (kind : Kind) where
  request-IsAccepted :
      (bytes : Text) (request : List (Text × Text)) (e : Envelope)
      → length bytes ≤ pos_part max_bytes
      → json.decode_object bytes ≡ some request
      → with_model json kind request (model_from_request json request) ≡ ok e
      → IsAccepted json max_bytes (some bytes) kind e
  request-IsAccepted bytes request e fits good h =
      elim (Result-cases (model_from_request json request)) [
        | inl (trimmed, found) ↦
            let made = ok-injective (sym (ap (with_model json kind request) found) ∙ h) in
            let (raw, model, there, text, named, same) =
              model_from_request-HasModel json request found in
            (
              bytes,
              request,
              raw,
              model,
              refl,
              fits,
              good,
              there,
              text,
              named,
              sym made
                  ∙ ap
                      (λ (m : Text). record {
                        format = openai_compatible_format;
                        kind = kind;
                        body = new_replayable_body request m;
                      })
                      same,
            )
        | inr (x, bad) ↦ refused (sym (ap (with_model json kind request) bad) ∙ h)
      ]

  -- A request passes the checks only if its body could be read within the limit and is an object with a
  -- `model` that is a string and not blank. Its envelope has the trimmed model and the body to replay.
  pub envelope-IsAccepted :
      (sent : Option Text) {e : Envelope}
      → openai_compatible_envelope json max_bytes sent kind ≡ ok e
      → IsAccepted json max_bytes sent kind e
  unfolding openai_compatible_envelope
  envelope-IsAccepted none h = refused h
  envelope-IsAccepted (some bytes) {e} h =
      elim (Bool-cases (ltb (pos_part max_bytes) (length bytes))) [
        | inl t ↦
            let long : read_body json max_bytes (some bytes) ≡ none = rw t refl in
            refused (sym (ap (with_body json kind) long) ∙ h)
        | inr f ↦
            let fits : read_body json max_bytes (some bytes) ≡ some bytes = rw f refl in
            let h1 : with_request json kind (json.decode_object bytes) ≡ ok e =
              sym (ap (with_body json kind) fits) ∙ h in
            elim (Option-cases (json.decode_object bytes)) [
              | inl bad ↦ refused (sym (ap (with_request json kind) bad) ∙ h1)
              | inr (request, good) ↦
                  request-IsAccepted bytes request e (ground (arith, f)) good
                    (sym (ap (with_request json kind) good) ∙ h1)
            ]
      ]
