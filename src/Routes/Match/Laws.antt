-- ===== src/Routes/Match/Laws.antt =====
-- What a segment of a pattern matches.
use aether_code.Base.{
  ℕ, ◌+◌, true, false, [], ◌∷◌, ◌++◌, Option, none, some, Text, ◌==◌, text_eq, nat_eq, text_beq_iff,
  ltb, length, length-append, if◌then◌else◌, Bool-cases, inl, inr, ◌↔◌, ◌≡◌, ◌≢◌, refl, sym, ap,
  ◌∙◌, arith, ==_refl, ==_ne, some-injective, append_assoc, All-append,
}
use aether_code.Text.{
  index, take, drop, has_suffix, trim_suffix, strip_prefix, strip_suffix, or_else, is_some,
}
use aether_code.Text.Affix.{strip_prefix-append, strip_suffix-append, strip_suffix_sound}
use aether_code.Text.Split.{Lacks}
use aether_code.Routes.Match.{Matched, match_parameter, match_braces, match_route_segment}

-- The byte does not occur.
abbrev pub LacksByte : ℕ → Text → Type 0
LacksByte c = Lacks (λ d. d == c)

index-LacksByte : (c : ℕ) (s t : Text) → LacksByte c s → index (s ++ c ∷ t) c ≡ some (length s)
unfolding index
index-LacksByte c [] t h = rw (==_refl c) refl
index-LacksByte c (d ∷ s) t h = rw (h.0, index-LacksByte c s t h.1) refl

take-append : (s t : Text) → take (length s) (s ++ t) ≡ s
unfolding take
take-append [] [] = refl
take-append [] (c ∷ t) = refl
take-append (c ∷ s) t = ap (λ (x : Text). c ∷ x) (take-append s t)

drop-append : (s t : Text) → drop (length s) (s ++ t) ≡ t
unfolding drop
drop-append [] [] = refl
drop-append [] (c ∷ t) = refl
drop-append (c ∷ s) t = drop-append s t

match_parameter-append :
    (prefix name suffix value : Text)
    → name ≢ []
    → value ≢ []
    → match_parameter prefix name suffix (prefix ++ (value ++ suffix)) ≡ some (name, value)
unfolding match_parameter
match_parameter-append prefix name suffix value named filled =
    let after_prefix = strip_prefix-append prefix (value ++ suffix) in
    let at_end : strip_suffix suffix (prefix ++ (value ++ suffix)) ≡ some (prefix ++ value) =
      ap (strip_suffix suffix) (sym (append_assoc prefix value suffix))
      ∙ strip_suffix-append (prefix ++ value) suffix in
    rw
      (
        ==_ne name [] named,
        after_prefix,
        at_end,
        strip_suffix-append value suffix,
        ==_ne value [] filled,
      )
      refl

has_suffix_sound :
    (suffix s : Text) → has_suffix s suffix ≡ true → s ≡ trim_suffix s suffix ++ suffix
has_suffix_sound suffix s h = go (strip_suffix suffix s) (λ t e. strip_suffix_sound suffix s e) h
  where
    go :
        (o : Option Text)
        → ((t : Text) → o ≡ some t → s ≡ t ++ suffix)
        → is_some o ≡ true
        → s ≡ or_else o s ++ suffix
    go (some t) k i = k t refl
    go none k i = cc

abbrev bare_match : Text → Text → Text → Matched
bare_match name suffix segment =
    if has_suffix segment suffix
    then if trim_suffix segment suffix == [] then none else some (name, trim_suffix segment suffix)
    else none

bare :
    (name suffix segment : Text)
    → name ≢ []
    → match_parameter [] name suffix segment ≡ bare_match name suffix segment
unfolding match_parameter strip_prefix
bare name suffix segment named = elim (Bool-cases (has_suffix segment suffix)) [
  | inl t ↦ rw (==_ne name [] named, t) refl
  | inr f ↦ rw (==_ne name [] named, f) refl
]

bare-some :
    (name suffix segment n value : Text)
    → bare_match name suffix segment ≡ some (n, value)
    → (n ≡ name) × (value ≢ []) × (segment ≡ value ++ suffix)
bare-some name suffix segment n value h = elim (Bool-cases (has_suffix segment suffix)) [
  | inl t ↦ elim (Bool-cases (trim_suffix segment suffix == [])) [
    | inl u ↦ absurd (nothing (rw (t, u) at h))
    | inr u ↦
        let found : some (name, trim_suffix segment suffix) ≡ some (n, value) = rw (t, u) at h in
        let parts = some-injective found in
        let same : trim_suffix segment suffix ≡ value = ap (λ (x : Text × Text). x.1) parts in
        (
          sym (ap (λ (x : Text × Text). x.0) parts),
          λ e. cc (u, (text_beq_iff (trim_suffix segment suffix) []).1 (same ∙ e)),
          has_suffix_sound suffix segment t ∙ ap (λ (x : Text). x ++ suffix) same,
        )
  ]
  | inr f ↦ absurd (nothing (rw f at h))
]
  where
    nothing : ◌≡◌ {A = Option (Text × Text)} none (some (n, value)) → ⊥
    nothing e = cc

-- Without a prefix, a parameter matches exactly the segments that are a value in front of the suffix.
match_parameter_iff :
    (name suffix segment n value : Text)
    → name ≢ []
    → (match_parameter [] name suffix segment ≡ some (n, value))
      ↔ ((n ≡ name) × (value ≢ []) × (segment ≡ value ++ suffix))
match_parameter_iff name suffix segment n value named = (
  λ h. bare-some name suffix segment n value (sym (bare name suffix segment named) ∙ h),
  λ (e, filled, built). rw (e, built) (match_parameter-append [] name suffix value named filled),
)

-- The position of the closing brace, and the three parts that it and the opening one cut.
module _ (prefix name suffix : Text) (no_open : LacksByte b'{' prefix)
    (no_close : LacksByte b'}' prefix) (name_no_close : LacksByte b'}' name) where
  abbrev pattern : Text
  pattern = prefix ++ b'{' ∷ (name ++ b'}' ∷ suffix)

  abbrev head : Text
  head = prefix ++ b'{' ∷ []

  joined : pattern ≡ head ++ (name ++ b'}' ∷ suffix)
  joined = sym (append_assoc prefix (b'{' ∷ []) (name ++ b'}' ∷ suffix))

  whole : pattern ≡ (head ++ name) ++ b'}' ∷ suffix
  whole = joined ∙ sym (append_assoc head name (b'}' ∷ suffix))

  longer : pattern ≡ ((head ++ name) ++ b'}' ∷ []) ++ suffix
  longer = whole ∙ sym (append_assoc (head ++ name) (b'}' ∷ []) suffix)

  head_no_close : LacksByte b'}' (head ++ name)
  head_no_close =
      All-append (λ (d : ℕ). (d == b'}') ≡ false) head name
        (All-append (λ (d : ℕ). (d == b'}') ≡ false) prefix (b'{' ∷ []) no_close (refl, tt))
        name_no_close

  length-head : length head ≡ length prefix + 1
  length-head = length-append prefix (b'{' ∷ [])

  cut_pattern :
      (segment : Text)
      → match_route_segment pattern segment ≡ match_parameter prefix name suffix segment
  unfolding match_route_segment
  cut_pattern segment =
      let close : ℕ = length (head ++ name) in
      let opens : index pattern b'{' ≡ some (length prefix) =
        index-LacksByte b'{' prefix (name ++ b'}' ∷ suffix) no_open in
      let closes : index pattern b'}' ≡ some close =
        ap (λ (x : Text). index x b'}') whole
        ∙ index-LacksByte b'}' (head ++ name) suffix head_no_close in
      let after_open : ltb close (length prefix) ≡ false =
        ground (arith, length-append head name, length-head) in
      let first : take (length prefix) pattern ≡ prefix = take-append prefix _ in
      let middle : drop (length prefix + 1) (take close pattern) ≡ name =
        ap (λ (x : Text). drop (length prefix + 1) (take close x)) whole
        ∙ ap (drop (length prefix + 1)) (take-append (head ++ name) (b'}' ∷ suffix))
        ∙ ap (λ (n : ℕ). drop n (head ++ name)) (sym length-head)
        ∙ drop-append head name in
      let last : drop (close + 1) pattern ≡ suffix =
        ap (drop (close + 1)) longer
        ∙ ap (λ (n : ℕ). drop n (((head ++ name) ++ b'}' ∷ []) ++ suffix))
            (sym (length-append (head ++ name) (b'}' ∷ [])))
        ∙ drop-append ((head ++ name) ++ b'}' ∷ []) suffix in
      ap (λ (o : Option ℕ). match_braces pattern segment o (index pattern b'}')) opens
      ∙ ap (λ (o : Option ℕ). match_braces pattern segment (some (length prefix)) o) closes
      ∙ rw (after_open, first, middle, last) refl

  -- A segment that is built from a value matches the pattern, and gives the value back: the name and the
  -- value are not empty, and the braces of the pattern are the only ones before its suffix.
  pub match_route_segment-append :
      (value : Text)
      → name ≢ []
      → value ≢ []
      → match_route_segment pattern (prefix ++ (value ++ suffix)) ≡ some (name, value)
  match_route_segment-append value named filled =
      cut_pattern (prefix ++ (value ++ suffix))
      ∙ match_parameter-append prefix name suffix value named filled

-- A pattern that is a parameter with a suffix matches exactly the segments that are a non-empty value in
-- front of that suffix, and gives the parameter's name and that value: the name is not empty and has no
-- closing brace.
pub match_route_segment_iff :
    (name suffix segment n value : Text)
    → LacksByte b'}' name
    → name ≢ []
    → (match_route_segment (b'{' ∷ (name ++ b'}' ∷ suffix)) segment ≡ some (n, value))
      ↔ ((n ≡ name) × (value ≢ []) × (segment ≡ value ++ suffix))
match_route_segment_iff name suffix segment n value closed named =
    let cut = cut_pattern [] name suffix tt tt closed segment in
    let both = match_parameter_iff name suffix segment n value named in
    (λ h. both.0 (sym cut ∙ h), λ h. cut ∙ both.1 h)
