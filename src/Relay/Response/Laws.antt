-- ===== src/Relay/Response/Laws.antt =====
-- The copy of an upstream response: its status is committed once, and its body is passed on in order.
use aether_code.Base.{
  ℕ, suc, Bool, true, false, List, [], ◌∷◌, ◌++◌, Option, none, some, Text, ◌==◌, nat_eq, length,
  inl, inr, ◌≡◌, refl, sym, ap, ◌∙◌, arith, append_assoc, Bool-cases,
}
use aether_code.Text.{take}
use aether_code.Http.{Write, statuses, body_of, writes_status}
use aether_code.Http.Headers.{Header, copy_headers, is_hop_by_hop_header, header_writes}
use aether_code.Relay.Response.{
  Response, ReadEnd, more, eof, broken, Writer, Copied, CommitTracker, new_tracker, track_body,
  track_status, tracked_write, copy_flushing, io_copy, copy_upstream_response, ended,
  wrote_flushing, wrote_whole, then_copied, committed,
}

pub statuses-append : (ws vs : List Write) → statuses (ws ++ vs) ≡ statuses ws ++ statuses vs
unfolding statuses
statuses-append [] vs = refl
statuses-append (Write.writes_status s ∷ ws) vs =
    ap (λ (ss : List ℕ). s ∷ ss) (statuses-append ws vs)
statuses-append (Write.sets_header k v ∷ ws) vs = statuses-append ws vs
statuses-append (Write.adds_header k v ∷ ws) vs = statuses-append ws vs
statuses-append (Write.writes_body b ∷ ws) vs = statuses-append ws vs
statuses-append (Write.flushes ∷ ws) vs = statuses-append ws vs

pub body_of-append : (ws vs : List Write) → body_of (ws ++ vs) ≡ body_of ws ++ body_of vs
unfolding body_of
body_of-append [] vs = refl
body_of-append (Write.writes_status s ∷ ws) vs = body_of-append ws vs
body_of-append (Write.sets_header k v ∷ ws) vs = body_of-append ws vs
body_of-append (Write.adds_header k v ∷ ws) vs = body_of-append ws vs
body_of-append (Write.writes_body b ∷ ws) vs =
    ap (λ (t : Text). b ++ t) (body_of-append ws vs)
    ∙ sym (append_assoc b (body_of ws) (body_of vs))
body_of-append (Write.flushes ∷ ws) vs = body_of-append ws vs

-- Writes that commit no status and no body.
abbrev pub Silent : List Write → Type 0
Silent ws = (statuses ws ≡ []) × (body_of ws ≡ [])

append-Silent : (ws vs : List Write) → Silent ws → Silent vs → Silent (ws ++ vs)
append-Silent ws vs h k =
    (statuses-append ws vs ∙ cc (h.0, k.0), body_of-append ws vs ∙ cc (h.1, k.1))

header_writes-Silent : (key : Text) (values : List Text) → Silent (header_writes key values)
unfolding statuses body_of
header_writes-Silent key [] = (refl, refl)
header_writes-Silent key (v ∷ values) = header_writes-Silent key values

pub copy_headers-Silent : (src : Header) → Silent (copy_headers src)
unfolding copy_headers statuses body_of
copy_headers-Silent [] = (refl, refl)
copy_headers-Silent ((key, values) ∷ src) = elim (Bool-cases (is_hop_by_hop_header key)) [
  | inl t ↦ rw t (copy_headers-Silent src)
  | inr f ↦ rw f (
      append-Silent (header_writes key values) (copy_headers src) (header_writes-Silent key values)
        (copy_headers-Silent src))
]

-- A copy of a body that leaves the committed status of the tracker as it is.
abbrev Keeps : CommitTracker → Copied → Type 0
Keeps t (ws, t', e) =
    (statuses ws ≡ []) × (t'.status_committed ≡ true) × (t'.status_code ≡ t.status_code)

module _ (writer : Writer) where
  track_body-Keeps :
      (t : CommitTracker) (n : ℕ)
      → t.status_committed ≡ true
      → ((track_body t n).status_committed ≡ true) × ((track_body t n).status_code ≡ t.status_code)
  track_body-Keeps t n h = ground arith

  then_copied-Keeps :
      (ws : List Write) (t : CommitTracker) (c : Copied)
      → statuses ws ≡ []
      → Keeps t c
      → Keeps t (then_copied ws c)
  then_copied-Keeps ws t (vs, t', e) h k = (statuses-append ws vs ∙ cc (h, k.0), k.1, k.2)

  ended-Keeps :
      (t : CommitTracker) (end : ReadEnd) (c : Copied)
      → t.status_committed ≡ true
      → Keeps t c
      → Keeps t (ended t end c)
  unfolding statuses
  ended-Keeps t more c h k = k
  ended-Keeps t eof c h k = (refl, h, refl)
  ended-Keeps t (broken e) c h k = (refl, h, refl)

  carried :
      (t t1 : CommitTracker) (c : Copied) → t1.status_code ≡ t.status_code → Keeps t1 c → Keeps t c
  carried t t1 c e k = (k.0, k.1, k.2 ∙ e)

  wrote_flushing-Keeps :
      (t : CommitTracker) (o : Option Text) (n : ℕ) (data' : Text) (rest : CommitTracker → Copied)
      → t.status_committed ≡ true
      → ((t1 : CommitTracker) → t1.status_committed ≡ true → Keeps t1 (rest t1))
      → Keeps t (wrote_flushing ((Write.writes_body data' ∷ [], track_body t n, o), n) rest)
  unfolding statuses
  wrote_flushing-Keeps t none n data' rest h k =
      let kept = track_body-Keeps t n h in
      let t1 = track_body t n in
      then_copied-Keeps (Write.writes_body data' ∷ Write.flushes ∷ []) t (rest t1) refl
        (carried t t1 (rest t1) kept.1 (k t1 kept.0))
  wrote_flushing-Keeps t (some e) n data' rest h k =
      let kept = track_body-Keeps t n h in (refl, kept.0, kept.1)

  copy_flushing-Keeps :
      (i : ℕ) (t : CommitTracker) (reads : List (Text × ReadEnd))
      → t.status_committed ≡ true
      → Keeps t (copy_flushing writer i t reads)
  unfolding copy_flushing statuses tracked_write
  copy_flushing-Keeps i t [] h = (refl, h, refl)
  copy_flushing-Keeps i t (([], end) ∷ reads) h =
      ended-Keeps t end (copy_flushing writer i t reads) h (copy_flushing-Keeps i t reads h)
  copy_flushing-Keeps i t ((c ∷ s, end) ∷ reads) h =
      let (n, o) = writer i (c ∷ s) in
      wrote_flushing-Keeps t o n (take n (c ∷ s)) _ h (λ t1 h1.
        ended-Keeps t1 end (copy_flushing writer (suc i) t1 reads) h1
          (copy_flushing-Keeps (suc i) t1 reads h1))

  wrote_whole-Keeps :
      (size : ℕ) (t : CommitTracker) (o : Option Text) (n : ℕ) (data' : Text)
      (rest : CommitTracker → Copied)
      → t.status_committed ≡ true
      → ((t1 : CommitTracker) → t1.status_committed ≡ true → Keeps t1 (rest t1))
      → Keeps t (wrote_whole size ((Write.writes_body data' ∷ [], track_body t n, o), n) rest)
  unfolding statuses
  wrote_whole-Keeps size t none n data' rest h k =
      let kept = track_body-Keeps t n h in
      let t1 = track_body t n in
      elim (Bool-cases (n == size)) [
        | inl e ↦ rw e (
            then_copied-Keeps (Write.writes_body data' ∷ []) t (rest t1) refl
              (carried t t1 (rest t1) kept.1 (k t1 kept.0)))
        | inr f ↦ rw f (refl, kept.0, kept.1)
      ]
  wrote_whole-Keeps size t (some e) n data' rest h k =
      let kept = track_body-Keeps t n h in (refl, kept.0, kept.1)

  io_copy-Keeps :
      (i : ℕ) (t : CommitTracker) (reads : List (Text × ReadEnd))
      → t.status_committed ≡ true
      → Keeps t (io_copy writer i t reads)
  unfolding io_copy statuses tracked_write
  io_copy-Keeps i t [] h = (refl, h, refl)
  io_copy-Keeps i t (([], end) ∷ reads) h =
      ended-Keeps t end (io_copy writer i t reads) h (io_copy-Keeps i t reads h)
  io_copy-Keeps i t ((c ∷ s, end) ∷ reads) h =
      let (n, o) = writer i (c ∷ s) in
      wrote_whole-Keeps (length (c ∷ s)) t o n (take n (c ∷ s)) _ h (λ t1 h1.
        ended-Keeps t1 end (io_copy writer (suc i) t1 reads) h1 (io_copy-Keeps (suc i) t1 reads h1))

  -- A fresh tracker ends with the status of the response, which is the only one that is written.
  pub copy-status :
      (can_flush : Bool) (resp : Response)
      → let (ws, t, e) = copy_upstream_response writer can_flush resp new_tracker in
        (statuses ws ≡ resp.status ∷ []) × (t.status_code ≡ resp.status) × (committed t ≡ true)
  unfolding copy_upstream_response track_status committed statuses
  copy-status can_flush resp =
      let t = track_status new_tracker resp.status in
      let start =
        statuses-append (copy_headers resp.header) (writes_status resp.status ∷ [])
        ∙ ap (λ (ss : List ℕ). ss ++ resp.status ∷ []) (copy_headers-Silent resp.header).0 in
      let whole = λ (ws : List Write) (h : statuses ws ≡ []).
        statuses-append (copy_headers resp.header ++ writes_status resp.status ∷ []) ws
        ∙ ap (λ (ss : List ℕ). ss ++ statuses ws) start
        ∙ ap (λ (ss : List ℕ). resp.status ∷ ss) h in
      elim can_flush
        as (λ b.
          let c = copy_upstream_response writer b resp new_tracker in
          (statuses c.0 ≡ resp.status ∷ [])
          × (c.1.status_code ≡ resp.status)
          × (committed c.1 ≡ true)) [
            | true ↦
                let k = copy_flushing-Keeps 0 t resp.body refl in
                (whole _ k.0, k.2, ground (arith, k.1))
            | false ↦
                let k = io_copy-Keeps 0 t resp.body refl in (whole _ k.0, k.2, ground (arith, k.1))
          ]
