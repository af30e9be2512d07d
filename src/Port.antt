-- ===== src/Port.antt =====
-- inc/sglib/iocp/iocp.h: class iocp, a completion port and its worker threads.
pub mod Close
mod Tests
use libiocp.Base.{ℕ, ◌+◌, ◌-◌, ◌≡◌, ◌<◌, ◌≤◌, Bool, List, [], ◌∷◌, ◌==◌, if◌then◌else◌}

-- What one GetQueuedCompletionStatus leaves in its out parameters; `session` is 0 for null.
pub record Dequeued : Type 0 where
  pub ok : Bool
  pub trans : ℕ
  pub session : ℕ
  pub olp : ℕ

-- How a turn of a worker ends; `faults` is a call through a null session.
pub data WorkerTurn (A : Type 0) : Type 0 where
  goes_on quits faults : A → WorkerTurn A

-- `process` is `session->process_iocp (trans, olp)` on all that the sessions share.
module _ {A : Type 0} (process : ℕ → ℕ → ℕ → A → A) where
  unfoldable pub worker_turn : Dequeued → A → WorkerTurn A
  worker_turn d a =
      if d.session == 0
      then (if d.ok then quits a else faults a)
      else goes_on (process d.session d.trans d.olp a)

  -- The loop of `iocp_thread_proc` over what it dequeues: `goes_on` while it waits for more.
  unfoldable pub worker_loop : List Dequeued → A → WorkerTurn A
  unfolding worker_turn
  worker_loop [] a = goes_on a
  worker_loop (d ∷ ds) a = elim (worker_turn d a) [
    | goes_on b ↦ worker_loop ds b
    | quits b ↦ quits b
    | faults b ↦ faults b
  ]

-- Where the thread that closes the port stands: before `close`, in its loop with so many posts
-- made, in its wait, behind the close of the handle, or returned early since a post failed.
pub data Closer : Type 0 where
  opened waiting closed : Closer
  posting failed : ℕ → Closer

-- `live` workers are in their loop, `nulls` completions without a session are on the port, and
-- `released` is the count of the semaphore.
pub record PortState : Type 0 where
  pub thread_count : ℕ
  pub live : ℕ
  pub nulls : ℕ
  pub released : ℕ
  pub closer : Closer

-- The end of `iocp::open`.
unfoldable pub port_opened : ℕ → PortState
port_opened n = record { thread_count = n; live = n; nulls = 0; released = 0; closer = opened }

-- The steps by which a port is closed. A worker that takes a completion without a session leaves its
-- loop and releases the semaphore; what the workers do with other completions changes nothing here.
pub data PortStep (s : PortState) : PortState → Type 0 where
  begins : s.closer ≡ opened → PortStep s (record s { closer = posting 0 })
  posts :
      (k : ℕ)
      → s.closer ≡ posting k
      → k < s.thread_count
      → PortStep s (record s { closer = posting (k + 1); nulls = s.nulls + 1 })
  post_fails :
      (k : ℕ)
      → s.closer ≡ posting k
      → k < s.thread_count
      → PortStep s (record s { closer = failed k })
  posted_all :
      (k : ℕ)
      → s.closer ≡ posting k
      → s.thread_count ≤ k
      → PortStep s (record s { closer = waiting })
  worker_quits :
      0 < s.nulls
      → 0 < s.live
      → PortStep s (record s { nulls = s.nulls - 1; live = s.live - 1; released = s.released + 1 })
  closes :
      s.closer ≡ waiting
      → 0 < s.released
      → PortStep s (record s { released = s.released - 1; closer = closed })

pub data PortReach (n : ℕ) : PortState → Type 0 where
  here : PortReach n (port_opened n)
  next : {s t : PortState} → PortReach n s → PortStep s t → PortReach n t
