-- ===== src/Port/Close.antt =====
-- Which workers are left when `close` returns.
use libiocp.Base.{ℕ, zero, suc, ◌+◌, ◌≡◌, ◌<◌, ◌≤◌, ◌⊎◌, inl, inr, refl, arith, dec_lt}
use libiocp.Port.{
  Closer, opened, waiting, closed, posting, failed, PortState, port_opened, PortStep, begins, posts,
  post_fails, posted_all, worker_quits, closes, PortReach, here, next,
}

-- The posts made, and the releases that `close` has taken from the semaphore.
abbrev made : ℕ → Closer → ℕ
made n opened = 0
made n (posting k) = k
made n (failed k) = k
made n waiting = n
made n closed = n

abbrev taken : Closer → ℕ
taken closed = 1
taken _ = 0

-- Each worker that has left has released the semaphore once, for one post.
record Balanced (n : ℕ) (s : PortState) : Type 0 where
  count : s.thread_count ≡ n
  workers : s.live + s.released + taken s.closer ≡ n
  posted : s.nulls + s.released + taken s.closer ≡ made n s.closer
  bounded : made n s.closer ≤ n

PortStep-Balanced : {n : ℕ} {s t : PortState} → PortStep s t → Balanced n s → Balanced n t
PortStep-Balanced (begins e) v = ground (arith, v)
PortStep-Balanced (posts k e lt) v = ground (arith, v)
PortStep-Balanced (post_fails k e lt) v = ground (arith, v)
PortStep-Balanced (posted_all k e le) v = ground (arith, v)
PortStep-Balanced (worker_quits some_null some_live) v = ground (arith, v)
PortStep-Balanced (closes e some_released) v = ground (arith, v)

PortReach-Balanced : {n : ℕ} {s : PortState} → PortReach n s → Balanced n s
unfolding port_opened
PortReach-Balanced here = omega arith
PortReach-Balanced (next r st) = PortStep-Balanced st (PortReach-Balanced r)

-- When `close` has come through its wait at least one worker has left its loop, so that of one worker
-- none is left; each that has left has released the semaphore once, `close` has taken one of these
-- releases, and for each that is left there is a post. Where a post fails `close` returns early: no
-- release has been taken, and there are at most as many posts as workers left, perhaps none.
pub closed_workers :
    {n : ℕ} {s : PortState}
    → PortReach n s
    → (s.closer ≡ closed) ⊎ ((k : ℕ) × (s.closer ≡ failed k))
    → ((s.live < n) × (s.live + s.released + 1 ≡ n) × (s.nulls ≡ s.live))
      ⊎ ((s.live + s.released ≡ n) × (s.nulls ≤ s.live))
closed_workers r (inl e) = inl (ground (arith, PortReach-Balanced r))
closed_workers r (inr (k, e)) = inr (ground (arith, PortReach-Balanced r))

posting_at : (n k : ℕ) → PortState
posting_at n k = record { thread_count = n; live = n; nulls = k; released = 0; closer = posting k }

reach_posting : (n k : ℕ) → k ≤ n → PortReach n (posting_at n k)
unfolding posting_at port_opened
reach_posting n zero le = next here (begins refl)
reach_posting n (suc k) le =
    let e : k + 1 ≡ suc k = omega arith in
    rw (← e) (next (reach_posting n k (omega arith)) (posts k refl (omega arith)))

-- Whatever the number of workers, `close` can return, and can close the handle, while all but one
-- are still in their loop.
pub close_early :
    (n : ℕ) → 0 < n → (s : PortState) × PortReach n s × (s.closer ≡ closed) × (s.live + 1 ≡ n)
unfolding posting_at
close_early n pos = (
  _,
  next
      (next (next (reach_posting n n (omega arith)) (posted_all n refl (omega arith)))
        (worker_quits pos pos))
      (closes refl (omega arith)),
  refl,
  omega arith,
)

-- Steps from one state to another.
pub data PortSteps (s : PortState) : PortState → Type 0 where
  done : PortSteps s s
  more : {t u : PortState} → PortSteps s t → PortStep t u → PortSteps s u

-- A `close` that waits, on a port with workers, can always go on from where it stands until it
-- returns: at once if a worker has released the semaphore, and otherwise by a step of a worker, which
-- is still in its loop and finds a post of `close`.
pub close_returns :
    {n : ℕ} {s : PortState}
    → PortReach n s
    → 0 < n
    → s.closer ≡ waiting
    → (t : PortState) × PortSteps s t
      × (t.closer ≡ closed)
      × (s.live ≤ t.live + 1)
      × (t.thread_count ≡ n)
close_returns {n} {s} r pos e = elim (dec_lt 0 s.released) [
  | yes free ↦
      let v = PortReach-Balanced r in (_, more done (closes e free), refl, omega arith, v.count)
  | no none_free ↦
      let v = PortReach-Balanced r in
      (
        _,
        more (more done (worker_quits (ground (arith, v)) (ground (arith, v))))
            (closes e (omega arith)),
        refl,
        omega arith,
        v.count,
      )
]
