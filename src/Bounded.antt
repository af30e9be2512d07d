-- ===== src/Bounded.antt =====
-- inc/sglib/sglib_queueT.h: class queue_boundedT, the queue whose `put` waits while it is full.
-- Each function here is what runs under the mutex from one lock to the next unlock.
pub mod Threads
pub mod Wait
mod Tests
use libiocp.Base.{
  ℕ, ◌+◌, ◌-◌, Bool, true, false, List, [], ◌∷◌, ◌++◌, Option, none, some, ◌==◌, ◌&&◌, ltb,
  if◌then◌else◌, ℤ, minus_one, pos,
}
use libiocp.Queue.{front, pop_front}

-- `not_full` and `not_empty` are the states of the manual-reset events in the two conditions.
pub record Bounded (A : Type 0) : Type 0 where
  pub bound : ℕ
  pub count : ℕ
  pub stop : Bool
  pub items : List A
  pub not_full : Bool
  pub not_empty : Bool

-- How a critical section of `put` or `get` ends: with the result and what `get` wrote to `*p`, or in
-- a wait.
pub data BoundedStep (A : Type 0) : Type 0 where
  returned : ℤ → Option A → Bounded A → BoundedStep A
  blocked : Bounded A → BoundedStep A

module _ {A : Type 0} where
  -- The constructor.
  unfoldable pub create : ℕ → Bounded A
  create bound = record {
    bound = bound;
    count = 0;
    stop = false;
    items = [];
    not_full = false;
    not_empty = false;
  }

  abbrev pub isfull : Bounded A → Bool
  isfull q = q.count == q.bound

  abbrev pub isempty : Bounded A → Bool
  isempty q = q.count == 0

  -- `put` behind its loop.
  unfoldable pub put_stored : Bounded A → A → BoundedStep A
  put_stored q x =
      if q.stop
      then returned minus_one none q
      else returned (pos (q.count + 1)) none (record q {
        items = q.items ++ x ∷ [];
        count = q.count + 1;
        not_full = (if q.count + 1 == q.bound then false else q.not_full);
        not_empty = true;
      })

  -- `put` from its first lock on.
  unfoldable pub put : Bounded A → A → BoundedStep A
  unfolding put_stored
  put q x = if isfull q then blocked q else put_stored q x

  -- `put` from the lock that `wait_signal` takes again.
  unfoldable pub put_resumed : Bounded A → A → BoundedStep A
  unfolding put
  put_resumed q x = if q.stop then put_stored q x else put q x

  -- `get` behind its loop.
  unfoldable pub get_taken : Bounded A → BoundedStep A
  get_taken q =
      if q.stop
      then returned minus_one none q
      else returned (pos (q.count - 1)) (front q.items) (record q {
        items = pop_front q.items;
        count = q.count - 1;
        not_full = true;
        not_empty = (if q.count - 1 == 0 then false else q.not_empty);
      })

  unfoldable pub get : Bounded A → BoundedStep A
  unfolding get_taken
  get q = if isempty q then blocked q else get_taken q

  unfoldable pub get_resumed : Bounded A → BoundedStep A
  unfolding get
  get_resumed q = if q.stop then get_taken q else get q

  -- `peek (p, remove)` for a `p` that is not null: the result, what it writes, and the queue.
  unfoldable pub peek : Bounded A → Bool → ℕ × Option A × Bounded A
  peek q remove =
      if q.count == 0
      then (q.count, none, q)
      else if remove
      then (
        q.count,
        front q.items,
        record q { items = pop_front q.items; count = q.count - 1; not_full = true },
      )
      else (q.count, front q.items, q)

  unfoldable pub quit : Bounded A → Bounded A
  quit q = record q { stop = true; not_empty = true; not_full = true }

  unfoldable pub quit_thread_get : Bounded A → Bounded A
  quit_thread_get q = record q { stop = true; not_empty = true }

  unfoldable pub quit_thread_put : Bounded A → Bounded A
  quit_thread_put q = record q { stop = true; not_full = true }

  unfoldable pub clear : Bounded A → Bounded A
  clear q = record q { items = []; count = 0; stop = false }

  unfoldable pub reset : Bounded A → Bounded A
  reset q = record q { not_full = false; not_empty = false; count = 0; stop = false; items = [] }
