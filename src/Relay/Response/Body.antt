-- ===== src/Relay/Response/Body.antt =====
-- The bytes of a copied response: what the upstream sent, in order, and all of it unless there is an error.
use aether_code.Base.{
  ℕ, zero, suc, Bool, true, false, List, [], ◌∷◌, ◌++◌, Option, none, some, Text, codes, ◌==◌,
  nat_eq, length, inl, inr, ◌≡◌, refl, sym, ap, ◌∙◌, append-nil, append_assoc, Bool-cases,
  nat_beq_iff, subst,
}
use aether_code.Text.{take, drop}
use aether_code.Http.{Write, body_of, writes_status}
use aether_code.Http.Headers.{copy_headers}
use aether_code.Relay.Response.Laws.{body_of-append, copy_headers-Silent}
use aether_code.Relay.Response.{
  Response, ReadEnd, more, eof, broken, Writer, Copied, CommitTracker, track_body, tracked_write,
  copy_flushing, io_copy, copy_upstream_response, ended, wrote_flushing, wrote_whole, then_copied,
  track_status,
}

-- The bytes that the reads return, up to the end of the body.
unfoldable pub bytes_of : List (Text × ReadEnd) → Text
bytes_of [] = []
bytes_of ((data', more) ∷ reads) = data' ++ bytes_of reads
bytes_of ((data', eof) ∷ reads) = data'
bytes_of ((data', broken e) ∷ reads) = data'

take-drop : (n : ℕ) (s : Text) → take n s ++ drop n s ≡ s
unfolding take drop
take-drop n [] = refl
take-drop zero (c ∷ s) = refl
take-drop (suc n) (c ∷ s) = ap (λ (t : Text). c ∷ t) (take-drop n s)

take-length : (s : Text) → take (length s) s ≡ s
unfolding take
take-length [] = refl
take-length (c ∷ s) = ap (λ (t : Text). c ∷ t) (take-length s)

-- What `io.Writer` promises: a write of less than its data returns an error.
abbrev pub IsWriter : Writer → Type 0
IsWriter writer = (i : ℕ) (s : Text) → (writer i s).1 ≡ none → (writer i s).0 ≡ length s

-- The copy writes a prefix of some bytes, and all of them if it returns no error.
abbrev pub Copies : Text → Copied → Type 0
Copies bytes c = (rest : Text) × (body_of c.0 ++ rest ≡ bytes) × (c.2 ≡ none → rest ≡ [])

abbrev after : ReadEnd → Text → Text
after more bytes = bytes
after eof bytes = []
after (broken e) bytes = []

bytes_of-cons :
    (s : Text) (end : ReadEnd) (reads : List (Text × ReadEnd))
    → bytes_of ((s, end) ∷ reads) ≡ s ++ after end (bytes_of reads)
unfolding bytes_of
bytes_of-cons s more reads = refl
bytes_of-cons s eof reads = sym (append-nil s)
bytes_of-cons s (broken e) reads = sym (append-nil s)

ended-Copies :
    (t : CommitTracker) (end : ReadEnd) (bytes : Text) (c : Copied)
    → Copies bytes c
    → Copies (after end bytes) (ended t end c)
unfolding body_of
ended-Copies t more bytes c h = h
ended-Copies t eof bytes c h = ([], refl, λ _. refl)
ended-Copies t (broken e) bytes c h = ([], refl, λ _. refl)

then_copied-Copies :
    (ws : List Write) (s bytes : Text) (c : Copied)
    → body_of ws ≡ s
    → Copies bytes c
    → Copies (s ++ bytes) (then_copied ws c)
then_copied-Copies ws s bytes c e (rest, h, k) = (
  rest,
  ap (λ (t : Text). t ++ rest) (body_of-append ws c.0 ∙ ap (λ (t : Text). t ++ body_of c.0) e)
      ∙ append_assoc s (body_of c.0) rest
      ∙ ap (λ (t : Text). s ++ t) h,
  k,
)

-- A copy that stops with an error within the data of one read.
stopped-Copies :
    (t : CommitTracker) (n : ℕ) (s bytes e : Text)
    → Copies (s ++ bytes) (Write.writes_body (take n s) ∷ [], t, some e)
unfolding body_of
stopped-Copies t n s bytes e = (
  drop n s ++ bytes,
  ap (λ (x : Text). x ++ (drop n s ++ bytes)) (append-nil (take n s))
      ∙ sym (append_assoc (take n s) (drop n s) bytes)
      ∙ ap (λ (x : Text). x ++ bytes) (take-drop n s),
  λ h. cc,
)

taken : (n : ℕ) (s : Text) → n ≡ length s → take n s ++ [] ≡ s
taken n s h = append-nil (take n s) ∙ ap (λ (k : ℕ). take k s) h ∙ take-length s

module _ (writer : Writer) (lawful : IsWriter writer) where
  wrote_flushing-Copies :
      (t : CommitTracker) (o : Option Text) (n : ℕ) (s bytes : Text) (rest : CommitTracker → Copied)
      → (o ≡ none → n ≡ length s)
      → ((t1 : CommitTracker) → Copies bytes (rest t1))
      → Copies
          (s ++ bytes)
          (wrote_flushing ((Write.writes_body (take n s) ∷ [], track_body t n, o), n) rest)
  unfolding body_of
  wrote_flushing-Copies t none n s bytes rest h k =
      then_copied-Copies (Write.writes_body (take n s) ∷ Write.flushes ∷ []) s bytes
        (rest (track_body t n)) (taken n s (h refl)) (k (track_body t n))
  wrote_flushing-Copies t (some e) n s bytes rest h k = stopped-Copies (track_body t n) n s bytes e

  wrote_whole-Copies :
      (t : CommitTracker) (o : Option Text) (n : ℕ) (s bytes : Text) (rest : CommitTracker → Copied)
      → ((t1 : CommitTracker) → Copies bytes (rest t1))
      → Copies
          (s ++ bytes)
          (wrote_whole (length s) ((Write.writes_body (take n s) ∷ [], track_body t n, o), n) rest)
  unfolding body_of
  wrote_whole-Copies t none n s bytes rest k = elim (Bool-cases (n == length s)) [
    | inl e ↦ rw e (
        then_copied-Copies (Write.writes_body (take n s) ∷ []) s bytes (rest (track_body t n))
          (taken n s ((nat_beq_iff n (length s)).0 e)) (k (track_body t n)))
    | inr f ↦ rw f (stopped-Copies (track_body t n) n s bytes (codes "short write"))
  ]
  wrote_whole-Copies t (some e) n s bytes rest k = stopped-Copies (track_body t n) n s bytes e

  copy_flushing-Copies :
      (i : ℕ) (t : CommitTracker) (reads : List (Text × ReadEnd))
      → Copies (bytes_of reads) (copy_flushing writer i t reads)
  unfolding copy_flushing tracked_write body_of bytes_of
  copy_flushing-Copies i t [] = ([], refl, λ _. refl)
  copy_flushing-Copies i t (([], end) ∷ reads) =
      subst (λ (x : Text). Copies x (ended t end (copy_flushing writer i t reads)))
        (sym (bytes_of-cons [] end reads))
        (ended-Copies t end (bytes_of reads) (copy_flushing writer i t reads)
          (copy_flushing-Copies i t reads))
  copy_flushing-Copies i t ((c ∷ s, end) ∷ reads) =
      let (n, o) = writer i (c ∷ s) in
      subst
        (λ (x : Text). Copies x (
          wrote_flushing (tracked_write writer i t (c ∷ s))
            (λ t1. ended t1 end (copy_flushing writer (suc i) t1 reads))))
        (sym (bytes_of-cons (c ∷ s) end reads))
        (wrote_flushing-Copies t o n (c ∷ s) (after end (bytes_of reads)) _ (lawful i (c ∷ s))
          (λ t1.
            ended-Copies t1 end (bytes_of reads) (copy_flushing writer (suc i) t1 reads)
              (copy_flushing-Copies (suc i) t1 reads)))

  io_copy-Copies :
      (i : ℕ) (t : CommitTracker) (reads : List (Text × ReadEnd))
      → Copies (bytes_of reads) (io_copy writer i t reads)
  unfolding io_copy tracked_write body_of bytes_of
  io_copy-Copies i t [] = ([], refl, λ _. refl)
  io_copy-Copies i t (([], end) ∷ reads) =
      subst (λ (x : Text). Copies x (ended t end (io_copy writer i t reads)))
        (sym (bytes_of-cons [] end reads))
        (ended-Copies t end (bytes_of reads) (io_copy writer i t reads) (io_copy-Copies i t reads))
  io_copy-Copies i t ((c ∷ s, end) ∷ reads) =
      let (n, o) = writer i (c ∷ s) in
      subst
        (λ (x : Text). Copies x (
          wrote_whole (length (c ∷ s)) (tracked_write writer i t (c ∷ s))
            (λ t1. ended t1 end (io_copy writer (suc i) t1 reads))))
        (sym (bytes_of-cons (c ∷ s) end reads))
        (wrote_whole-Copies t o n (c ∷ s) (after end (bytes_of reads)) _ (λ t1.
          ended-Copies t1 end (bytes_of reads) (io_copy writer (suc i) t1 reads)
            (io_copy-Copies (suc i) t1 reads)))

  -- A copied response is a prefix of the upstream body, and the whole body if the copy returns no error,
  -- with and without flushes: a write of less than its data must return an error.
  pub copy-Copies :
      (can_flush : Bool) (resp : Response) (tracker : CommitTracker)
      → Copies (bytes_of resp.body) (copy_upstream_response writer can_flush resp tracker)
  unfolding copy_upstream_response
  copy-Copies can_flush resp tracker =
      let head = copy_headers resp.header ++ writes_status resp.status ∷ [] in
      let t = track_status tracker resp.status in
      let silent : body_of head ≡ [] =
        body_of-append (copy_headers resp.header) (writes_status resp.status ∷ [])
        ∙ unfold body_of in ap (λ (x : Text). x ++ []) (copy_headers-Silent resp.header).1 in
      elim can_flush
        as (λ b. Copies (bytes_of resp.body) (copy_upstream_response writer b resp tracker)) [
          | true ↦
              then_copied-Copies head [] (bytes_of resp.body) (copy_flushing writer 0 t resp.body)
                silent (copy_flushing-Copies 0 t resp.body)
          | false ↦
              then_copied-Copies head [] (bytes_of resp.body) (io_copy writer 0 t resp.body) silent
                (io_copy-Copies 0 t resp.body)
        ]
