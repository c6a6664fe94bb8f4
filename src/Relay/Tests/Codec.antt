-- ===== src/Relay/Tests/Codec.antt =====
-- A codec of JSON objects that leaves blanks out, for the theorems about the body at concrete requests.
use aether_code.Base.{
  List, [], ◌∷◌, some, some-injective, Text, ◌==◌, text_eq, nat_eq, not, true, keep, Bool-cases,
  inl, inr, lookup, HasDistinctKeys, ok, ok-injective, ℕ, Bool, length, ◌≡◌, refl, ap, ◌∙◌, subst,
}
use aether_code.Text.Frame.{
  frame, unframe, unframe-frame, flat, pairs, pairs-HasDistinctKeys, lookup-pairs,
}
use aether_code.Http.{Json}
use aether_code.Relay.Body.Laws.{IsCodec, compacted}

abbrev pub compact : Text → Text
compact raw = keep (λ c. not (c == b' ')) raw

keep_idem : (p : ℕ → Bool) (s : Text) → keep p (keep p s) ≡ keep p s
unfolding keep
keep_idem p [] = refl
keep_idem p (c ∷ s) = elim (Bool-cases (p c)) [
  | inl t ↦ rw (t, t, keep_idem p s) refl
  | inr f ↦ rw (f, keep_idem p s) refl
]

abbrev pub compact_all : List (Text × Text) → List (Text × Text)
compact_all [] = []
compact_all ((k, v) ∷ m) = (k, compact v) ∷ compact_all m

lookup-compact_all :
    (k : Text) (m : List (Text × Text)) → lookup k (compact_all m) ≡ compacted compact (lookup k m)
unfolding lookup
lookup-compact_all k [] = refl
lookup-compact_all k ((j, v) ∷ m) = elim (Bool-cases (j == k)) [
  | inl t ↦ rw t refl
  | inr f ↦ rw f (lookup-compact_all k m)
]

abbrev pub small_json : Json
small_json = record {
  decode_object = λ t. some (pairs (unframe (length t) t));
  decode_string = λ t. some t;
  encode_string = compact;
  encode_object = λ m. ok (frame (flat (compact_all m)));
  encode_error = λ message type code. message;
}

pub small_json-IsCodec : IsCodec small_json (λ k. true) compact
small_json-IsCodec = record {
  distinct = λ text m e.
      subst (λ (x : List (Text × Text)). HasDistinctKeys x) (some-injective e)
        (pairs-HasDistinctKeys (unframe (length text) text));
  valid_keys = λ text m e k v found. refl;
  valid_model = refl;
  back = λ m text distinct valid e. (
    pairs (flat (compact_all m)),
    subst (λ (x : Text). small_json.decode_object x ≡ some (pairs (flat (compact_all m))))
        (ok-injective e)
        (ap (λ (ts : List Text). some (pairs ts)) (unframe-frame (flat (compact_all m)))),
    λ k. lookup-pairs (compact_all m) k ∙ lookup-compact_all k m,
  );
  compact_string = λ s. keep_idem (λ c. not (c == b' ')) s;
}
