-- ===== src/Relay/Response.antt =====
-- router/internal/app/openai.go: the copy of an upstream response to the client, with the tracker that
-- records what has been committed.
pub mod Laws
pub mod Body
use aether_code.Base.{
  ℕ, zero, suc, ◌+◌, ◌≤◌, Bool, true, false, ◌||◌, not, List, [], ◌∷◌, ◌++◌, Option, none, some,
  Text, codes, ◌==◌, nat_eq, leb, ltb, length, if◌then◌else◌,
}
use aether_code.Text.{take}
use aether_code.Http.{Write, writes_status, writes_body, flushes}
use aether_code.Http.Headers.{Header, copy_headers}

pub record CommitTracker : Type 0 where
  pub status_committed : Bool
  pub body_committed : Bool
  pub status_code : ℕ

abbrev pub new_tracker : CommitTracker
new_tracker = record { status_committed = false; body_committed = false; status_code = 0 }

unfoldable pub committed : CommitTracker → Bool
committed t = t.status_committed || t.body_committed

-- The end of a read: more to come, the end of the body, or an error.
pub data ReadEnd : Type 0 where
  more eof : ReadEnd
  broken : Text → ReadEnd

-- An upstream response. Its body is what the reads return, and the end of the body after them.
pub record Response : Type 0 where
  pub status : ℕ
  pub header : Header
  pub body : List (Text × ReadEnd)

unfoldable pub track_status : CommitTracker → ℕ → CommitTracker
track_status t status =
    if t.status_committed then t else record t { status_committed = true; status_code = status }

abbrev track_body : CommitTracker → ℕ → CommitTracker
track_body t n =
    let t1 =
      if t.status_committed then t else record t { status_committed = true; status_code = 200 } in
    if ltb 0 n then record t1 { body_committed = true } else t1

-- What the writer does with the data of its call number `i`: how many bytes it takes, and the error.
abbrev pub Writer : Type 0
Writer = ℕ → Text → ℕ × Option Text

-- What a copy did: the calls of the writer, the tracker, and the error.
abbrev pub Copied : Type 0
Copied = List Write × CommitTracker × Option Text

abbrev pub then_copied : List Write → Copied → Copied
then_copied before (ws, t, e) = (before ++ ws, t, e)

abbrev ended : CommitTracker → ReadEnd → Copied → Copied
ended t more rest = rest
ended t eof rest = ([], t, none)
ended t (broken e) rest = ([], t, some e)

abbrev wrote_flushing : Copied × ℕ → (CommitTracker → Copied) → Copied
wrote_flushing ((ws, t, some e), n) rest = (ws, t, some e)
wrote_flushing ((ws, t, none), n) rest = then_copied (ws ++ flushes ∷ []) (rest t)

abbrev wrote_whole : ℕ → Copied × ℕ → (CommitTracker → Copied) → Copied
wrote_whole size ((ws, t, some e), n) rest = (ws, t, some e)
wrote_whole size ((ws, t, none), n) rest =
    if n == size then then_copied ws (rest t) else (ws, t, some (codes "short write"))

module _ (writer : Writer) where
  -- The tracked write of some data.
  unfoldable pub tracked_write : ℕ → CommitTracker → Text → Copied × ℕ
  tracked_write i t data' =
      let (n, e) = writer i data' in ((writes_body (take n data') ∷ [], track_body t n, e), n)

  -- The loop over reads with a flush behind each write.
  unfoldable pub copy_flushing : ℕ → CommitTracker → List (Text × ReadEnd) → Copied
  copy_flushing i t [] = ([], t, none)
  copy_flushing i t (([], end) ∷ reads) = ended t end (copy_flushing i t reads)
  copy_flushing i t ((c ∷ s, end) ∷ reads) =
      wrote_flushing (tracked_write i t (c ∷ s))
        (λ t1. ended t1 end (copy_flushing (suc i) t1 reads))

  -- `io.Copy`, which also stops where a write takes less than its data.
  unfoldable pub io_copy : ℕ → CommitTracker → List (Text × ReadEnd) → Copied
  io_copy i t [] = ([], t, none)
  io_copy i t (([], end) ∷ reads) = ended t end (io_copy i t reads)
  io_copy i t ((c ∷ s, end) ∷ reads) =
      wrote_whole (length (c ∷ s)) (tracked_write i t (c ∷ s))
        (λ t1. ended t1 end (io_copy (suc i) t1 reads))

  unfoldable pub copy_upstream_response : Bool → Response → CommitTracker → Copied
  copy_upstream_response can_flush resp tracker =
      let t = track_status tracker resp.status in
      then_copied (copy_headers resp.header ++ writes_status resp.status ∷ [])
        (if can_flush then copy_flushing 0 t resp.body else io_copy 0 t resp.body)
