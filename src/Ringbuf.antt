-- ===== src/Ringbuf.antt =====
-- inc/sglib/sglib_queueT.h: class ringbufT, the blocking queue on a ring of `n` slots, of which one
-- stays free. Each function here is what runs under the mutex from one lock to the next unlock.
pub mod Contents
pub mod Fifo
pub mod Threads
mod Tests
use libiocp.Base.{
  ℕ, ◌+◌, ◌-◌, ◌%◌, Bool, true, false, List, [], ◌∷◌, Option, none, some, ◌==◌, if◌then◌else◌, ℤ,
  minus_one, zero_int, one, get_or, write,
}

-- `buf` is empty where `_buf` is null; `not_full` and `not_empty` are manual-reset events.
pub record Ring (A : Type 0) : Type 0 where
  pub buf : List A
  pub first : ℕ
  pub last : ℕ
  pub n : ℕ
  pub stop : Bool
  pub not_full : Bool
  pub not_empty : Bool

-- How a critical section of `put` or `get` ends: with the result and what `get` wrote to `*t`, or in
-- a wait.
pub data RingStep (A : Type 0) : Type 0 where
  returned : ℤ → Option A → Ring A → RingStep A
  blocked : Ring A → RingStep A

-- The constructor; it does not set the two places.
unfoldable pub ring_create : {A : Type 0} → (first last : ℕ) → Ring A
ring_create first last = record {
  buf = [];
  first = first;
  last = last;
  n = 0;
  stop = false;
  not_full = false;
  not_empty = false;
}

-- `junk` is what a read outside the storage would yield.
module _ {A : Type 0} (junk : A) where
  -- `_size`: `last` is below `n`, so nothing here is negative.
  unfoldable pub used : Ring A → ℕ
  used r = (r.first + r.n - r.last - 1) % r.n

  -- `_isempty` and `_isfull`.
  abbrev pub isempty : Ring A → Bool
  unfolding used
  isempty r = used r == 0

  abbrev pub isfull : Ring A → Bool
  isfull r = r.first == r.last

  unfoldable pub put_slot : Ring A → A → Ring A
  put_slot r t = record r { buf = write r.first (t ∷ []) r.buf; first = (r.first + 1) % r.n }

  unfoldable pub get_slot : Ring A → A × Ring A
  get_slot r = let last = (r.last + 1) % r.n in (get_or r.buf last junk, record r { last = last })

  unfoldable pub size : Ring A → ℕ
  unfolding used
  size r = if r.stop then 0 else used r

  -- `put` and `get` from their first lock on.
  unfoldable pub put : Ring A → A → Bool → RingStep A
  unfolding put_slot
  put r t wait =
      if r.stop
      then returned minus_one none r
      else if isfull r
      then (if wait then blocked r else returned zero_int none r)
      else returned one none (record (put_slot r t) { not_empty = true })

  unfoldable pub get : Ring A → Bool → RingStep A
  unfolding used get_slot
  get r wait =
      if r.stop
      then returned minus_one none r
      else if isempty r
      then (if wait then blocked r else returned zero_int none r)
      else returned one (some (get_slot r).0) (record ((get_slot r).1) { not_full = true })

  -- `put` and `get` from the lock that `wait_signal` takes again: the stop is tested again, then the
  -- loop goes on, and only a call that may wait has got here.
  unfoldable pub put_resumed : Ring A → A → RingStep A
  unfolding put
  put_resumed r t = put r t true

  unfoldable pub get_resumed : Ring A → RingStep A
  unfolding get
  get_resumed r = get r true

  unfoldable pub stop : Ring A → Ring A
  stop r = record r { stop = true; not_empty = true; not_full = true }

  unfoldable pub clear : Ring A → Ring A
  clear r = record r { buf = [] }

  -- `storage` is the block of `new T[_n]`.
  unfoldable pub init : Ring A → ℕ → List A → Ring A
  init r n storage = record r {
    n = n + 1;
    first = 0;
    last = n;
    buf = storage;
    stop = false;
    not_empty = false;
    not_full = false;
  }
