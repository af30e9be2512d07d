-- ===== src/Queue.antt =====
-- inc/sglib/sglib_queueT.h: class queueT, the unbounded blocking queue.
-- Each function here is what runs under the mutex from one lock to the next unlock.
pub mod Fifo
pub mod Threads
pub mod Wake
mod Tests
use libiocp.Base.{
  ℕ, ◌+◌, ◌-◌, Bool, true, false, List, [], ◌∷◌, ◌++◌, Option, none, some, ◌==◌, if◌then◌else◌, ℤ,
  minus_one, zero_int, one,
}

-- `not_empty` is the state of the auto-reset event in `_cond_not_empty`.
pub record Queue {ℓ} (A : Type ℓ) : Type ℓ where
  pub count : ℕ
  pub stop : Bool
  pub items : List A
  pub not_empty : Bool

-- How a critical section of `get` ends: the call returns, with what it wrote to `*t`, or it waits.
pub data GetStep {ℓ} (A : Type ℓ) : Type ℓ where
  returned : ℤ → Option A → Queue A → GetStep A
  blocked : Queue A → GetStep A

module _ {ℓ} {A : Type ℓ} where
  -- The constructor.
  unfoldable pub empty : Queue A
  empty = record { count = 0; stop = false; items = []; not_empty = false }

  abbrev pub isempty : Queue A → Bool
  isempty q = q.count == 0

  unfoldable pub size : Queue A → ℕ
  size q = if q.stop then 0 else q.count

  unfoldable pub put : Queue A → A → Queue A × ℤ
  put q p =
      if q.stop
      then (q, minus_one)
      else (record q { items = q.items ++ p ∷ []; count = q.count + 1; not_empty = true }, one)

  -- `*t = front(); pop_front()`; `none` stands for the undefined read of an empty deque.
  abbrev pub front : List A → Option A
  front [] = none
  front (x ∷ xs) = some x

  abbrev pub pop_front : List A → List A
  pop_front [] = []
  pop_front (x ∷ xs) = xs

  -- `get` from its first lock on.
  unfoldable pub get : Queue A → Bool → GetStep A
  get q wait =
      if q.stop
      then returned minus_one none q
      else if q.count == 0
      then (if wait then blocked q else returned zero_int none q)
      else returned one (front q.items) (record q {
        items = pop_front q.items;
        count = q.count - 1;
        not_empty = (if q.count - 1 == 0 then false else q.not_empty);
      })

  -- `get` from the lock that `wait_signal` takes again.
  unfoldable pub resume : Queue A → GetStep A
  resume q =
      if q.stop
      then returned minus_one none q
      else if isempty q
      then blocked q
      else returned one (front q.items)
          (record q { items = pop_front q.items; count = q.count - 1 })

  unfoldable pub quit : Queue A → Queue A
  quit q = record q { stop = true; not_empty = true }

  unfoldable pub clear : Queue A → Queue A
  clear q = record q { items = []; count = 0; stop = true }

  unfoldable pub init : Queue A → Queue A
  init q = record q { items = []; count = 0; stop = false }
