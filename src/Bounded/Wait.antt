-- ===== src/Bounded/Wait.antt =====
-- How a wait in `put` or `get` of queue_boundedT ends.
use libiocp.Base.{ℕ, ◌<◌, ◌≡◌, ◌⊎◌, inl, inr, true, false, ◌++◌, arith}
use libiocp.Bounded.{
  Bounded, blocked, put, put_resumed, get, get_resumed, peek, put_stored, get_taken,
}
use libiocp.Bounded.Threads.{
  BoundedPc, idle, empty_wait, empty_woken, full_wait, full_woken, Users, move, settle_put,
  settle_get, UserStep, wakes_put, wakes_get, resumes_put, resumes_get, Reached, Reached-Sound,
  taken_in,
}

module _ {A : Type 0} where
  move_own : (f : ℕ → BoundedPc A) (i : ℕ) (p : BoundedPc A) → move f i p i ≡ p
  move_own f i p = ground arith

  -- The thread `i` wakes, locks the mutex, and is out of its call.
  pub record Ended (i : ℕ) (s t : Users A) : Type 0 where
    pub between : Users A
    pub wakes : UserStep s between
    pub resumes : UserStep between t
    pub out : t.pc i ≡ idle

  put_resumed-out :
      (s : Users A) (i : ℕ) (x : A)
      → s.queue.stop ≡ true ⊎ s.queue.count < s.queue.bound
      → (settle_put s i x (put_resumed s.queue x)).pc i ≡ idle
  unfolding settle_put put_resumed put put_stored
  put_resumed-out s i x h = ground arith

  put_resumed-sent :
      (s : Users A) (i : ℕ) (x : A)
      → s.queue.stop ≡ true ⊎ s.queue.count < s.queue.bound
      → (settle_put s i x (put_resumed s.queue x)).sent ≡ s.sent ++ taken_in s.queue x
  unfolding settle_put put_resumed put put_stored
  put_resumed-sent s i x h = ground arith

  put_ready :
      {bound : ℕ} {s : Users A}
      → Reached bound s
      → (i : ℕ) (x : A) → s.pc i ≡ full_wait x
      → s.put_told ≡ true ⊎ s.queue.count < s.queue.bound
      → s.queue.not_full ≡ true
  put_ready r i x e (inl told) = ((Reached-Sound r).put_halts told).1
  put_ready r i x e (inr room) = (Reached-Sound r).full_seen i x e room

  put_reason :
      {bound : ℕ} {s : Users A}
      → Reached bound s
      → s.put_told ≡ true ⊎ s.queue.count < s.queue.bound
      → s.queue.stop ≡ true ⊎ s.queue.count < s.queue.bound
  put_reason r (inl told) = inl ((Reached-Sound r).put_halts told).0
  put_reason r (inr room) = inr room

  -- A thread that waits in `put` can return in two steps of its own as soon as the queue has room or
  -- its side has been told to stop, by `quit` or `quit_thread_put`, whatever the other threads did, and
  -- its item is accepted unless the queue is stopped. A `quit_thread_get` alone does not wake it.
  pub putter_ends :
      {bound : ℕ} {s : Users A}
      → Reached bound s
      → (i : ℕ) (x : A) → s.pc i ≡ full_wait x
      → s.put_told ≡ true ⊎ s.queue.count < s.queue.bound
      → (t : Users A) × Ended i s t × (t.sent ≡ s.sent ++ taken_in s.queue x)
  putter_ends {s = s} r i x e h =
      let m : Users A = record s { pc = move s.pc i (full_woken x) } in
      (
        settle_put m i x (put_resumed m.queue x),
        record {
          between = m;
          wakes = wakes_put i x e (put_ready r i x e h);
          resumes = resumes_put i x (move_own s.pc i (full_woken x));
          out = put_resumed-out m i x (put_reason r h);
        },
        put_resumed-sent m i x (put_reason r h),
      )

  get_resumed-out :
      (s : Users A) (i : ℕ)
      → s.queue.stop ≡ true ⊎ 0 < s.queue.count
      → (settle_get s i (get_resumed s.queue)).pc i ≡ idle
  unfolding settle_get get_resumed get get_taken
  get_resumed-out s i h = ground arith

  get_ready :
      {bound : ℕ} {s : Users A}
      → Reached bound s
      → (i : ℕ) → s.pc i ≡ empty_wait
      → s.get_told ≡ true ⊎ 0 < s.queue.count
      → s.queue.not_empty ≡ true
  get_ready r i e (inl told) = ((Reached-Sound r).get_halts told).1
  get_ready r i e (inr some_left) = (Reached-Sound r).empty_seen i e some_left

  get_reason :
      {bound : ℕ} {s : Users A}
      → Reached bound s
      → s.get_told ≡ true ⊎ 0 < s.queue.count
      → s.queue.stop ≡ true ⊎ 0 < s.queue.count
  get_reason r (inl told) = inl ((Reached-Sound r).get_halts told).0
  get_reason r (inr some_left) = inr some_left

  -- A thread that waits in `get` can return in two steps of its own as soon as the queue holds an
  -- item or its side has been told to stop, whatever the other threads did.
  pub getter_ends :
      {bound : ℕ} {s : Users A}
      → Reached bound s
      → (i : ℕ) → s.pc i ≡ empty_wait
      → s.get_told ≡ true ⊎ 0 < s.queue.count
      → (t : Users A) × Ended i s t
  getter_ends {s = s} r i e h =
      let m : Users A = record s { pc = move s.pc i empty_woken } in
      (
        settle_get m i (get_resumed m.queue),
        record {
          between = m;
          wakes = wakes_get i e (get_ready r i e h);
          resumes = resumes_get i (move_own s.pc i empty_woken);
          out = get_resumed-out m i (get_reason r h);
        },
      )

  -- After `peek` has removed the last item of a queue that runs and whose event was set, `get`
  -- waits although the event is set, and waits again each time that the wait returns.
  pub peek_spins :
      (q : Bounded A)
      → q.count ≡ 1
      → q.stop ≡ false
      → q.not_empty ≡ true
      → let (_, _, p) = peek q true in
        (get p ≡ blocked p) × (get_resumed p ≡ blocked p) × (p.not_empty ≡ true)
  unfolding peek get get_resumed
  peek_spins q one runs set = (ground arith, ground arith, ground arith)
