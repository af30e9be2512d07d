-- ===== src/Bounded/Threads.antt =====
-- queue_boundedT shared by threads that block in `put` and in `get`.
use libiocp.Base.{
  ℕ, ◌≤◌, ◌<◌, ◌≡◌, refl, ◌∙◌, sym, ◌⊎◌, inl, inr, Bool, true, false, List, [], ◌∷◌, ◌++◌, Option,
  arith, length, length-append, ◌==◌, if◌then◌else◌,
}
use mathlib.Core.List.{append-nil, append_assoc}
use libiocp.Queue.{front, pop_front}
use libiocp.Queue.Fifo.{length-pop_front}
use libiocp.Queue.Threads.{received}
use libiocp.Bounded.{
  Bounded, BoundedStep, returned, blocked, create, put, put_resumed, get, get_resumed, peek, quit,
  quit_thread_get, quit_thread_put, put_stored, get_taken,
}

-- Where a thread stands: outside, in a wait for a full queue with the item that it brings or for an
-- empty one, or out of that wait and about to lock the mutex again.
pub data BoundedPc (A : Type 0) : Type 0 where
  idle empty_wait empty_woken : BoundedPc A
  full_wait full_woken : A → BoundedPc A

-- `sent` are the items that were accepted, `got` those that were taken. `put_told` and `get_told` say
-- which side has been told to stop, by `quit` or by its own `quit_thread_...`.
pub record Users (A : Type 0) : Type 0 where
  pub queue : Bounded A
  pub pc : ℕ → BoundedPc A
  pub sent : List A
  pub got : List A
  pub put_told : Bool
  pub get_told : Bool

module _ {A : Type 0} where
  abbrev pub move : (ℕ → BoundedPc A) → ℕ → BoundedPc A → ℕ → BoundedPc A
  move f i p j = if i == j then p else f j

  abbrev pub taken_in : Bounded A → A → List A
  taken_in q x = if q.stop then [] else x ∷ []

  unfoldable pub settle_put : Users A → ℕ → A → BoundedStep A → Users A
  settle_put s i x (returned r t q) = record s {
    queue = q;
    pc = move s.pc i idle;
    sent = s.sent ++ taken_in s.queue x;
  }
  settle_put s i x (blocked q) = record s { queue = q; pc = move s.pc i (full_wait x) }

  unfoldable pub settle_get : Users A → ℕ → BoundedStep A → Users A
  settle_get s i (returned r t q) = record s {
    queue = q;
    pc = move s.pc i idle;
    got = s.got ++ received t;
  }
  settle_get s i (blocked q) = record s { queue = q; pc = move s.pc i empty_wait }

  unfoldable pub settle_peek : Users A → Bool → ℕ × Option A × Bounded A → Users A
  settle_peek s remove (r, t, q) = record s {
    queue = q;
    got = s.got ++ (if remove then received t else []);
  }

  pub data UserStep (s : Users A) : Users A → Type 0 where
    puts : (i : ℕ) (x : A) → s.pc i ≡ idle → UserStep s (settle_put s i x (put s.queue x))
    gets : (i : ℕ) → s.pc i ≡ idle → UserStep s (settle_get s i (get s.queue))
    peeks : (remove : Bool) → UserStep s (settle_peek s remove (peek s.queue remove))
    wakes_put :
        (i : ℕ) (x : A)
        → s.pc i ≡ full_wait x
        → s.queue.not_full ≡ true
        → UserStep s (record s { pc = move s.pc i (full_woken x) })
    wakes_get :
        (i : ℕ)
        → s.pc i ≡ empty_wait
        → s.queue.not_empty ≡ true
        → UserStep s (record s { pc = move s.pc i empty_woken })
    resumes_put :
        (i : ℕ) (x : A)
        → s.pc i ≡ full_woken x
        → UserStep s (settle_put s i x (put_resumed s.queue x))
    resumes_get : (i : ℕ) → s.pc i ≡ empty_woken → UserStep s (settle_get s i (get_resumed s.queue))
    quits : UserStep s (record s { queue = quit s.queue; put_told = true; get_told = true })
    quits_get : UserStep s (record s { queue = quit_thread_get s.queue; get_told = true })
    quits_put : UserStep s (record s { queue = quit_thread_put s.queue; put_told = true })

  unfoldable pub start : ℕ → Users A
  start bound = record {
    queue = create bound;
    pc = λ _. idle;
    sent = [];
    got = [];
    put_told = false;
    get_told = false;
  }

  pub data Reached (bound : ℕ) : Users A → Type 0 where
    here : Reached bound (start bound)
    next : {s t : Users A} → Reached bound s → UserStep s t → Reached bound t

  -- `full_seen` and `empty_seen`: whoever waits for what is no longer so finds the event set. The last
  -- three: a side that was told to stop finds its event set, and nothing else stops the queue.
  pub record Sound (s : Users A) : Type 0 where
    pub counted : s.queue.count ≡ length s.queue.items
    pub bounded : s.queue.count ≤ s.queue.bound
    pub kept : s.got ++ s.queue.items ≡ s.sent
    pub full_seen :
        (i : ℕ) (x : A)
        → s.pc i ≡ full_wait x
        → s.queue.count < s.queue.bound
        → s.queue.not_full ≡ true
    pub empty_seen : (i : ℕ) → s.pc i ≡ empty_wait → 0 < s.queue.count → s.queue.not_empty ≡ true
    pub put_halts : s.put_told ≡ true → (s.queue.stop ≡ true) × (s.queue.not_full ≡ true)
    pub get_halts : s.get_told ≡ true → (s.queue.stop ≡ true) × (s.queue.not_empty ≡ true)
    pub halts : s.queue.stop ≡ true → s.put_told ≡ true ⊎ s.get_told ≡ true

  split_front :
      (xs got sent : List A)
      → got ++ xs ≡ sent
      → (got ++ received (front xs)) ++ pop_front xs ≡ sent
  split_front [] got sent k = simp append-nil (sym (append-nil got) ∙ k)
  split_front (x ∷ xs) got sent k = append_assoc got (x ∷ []) xs ∙ k

  put-Sound : (s : Users A) (i : ℕ) (x : A) → Sound s → Sound (settle_put s i x (put s.queue x))
  unfolding settle_put put put_stored
  put-Sound s i x v = record {
    counted = ground (arith, v.counted, length-append s.queue.items (x ∷ []));
    bounded = ground (arith, v.bounded);
    kept = ground (arith, v.kept, append-nil s.sent, append_assoc s.got s.queue.items (x ∷ []));
    full_seen = λ j y e h. ground (arith, v.full_seen j y, v.bounded);
    empty_seen = λ j e h. ground (arith, v.empty_seen j);
    put_halts = λ h. ground (arith, v.put_halts);
    get_halts = λ h. ground (arith, v.get_halts);
    halts = λ h. ground (arith, v.halts);
  }

  get-Sound : (s : Users A) (i : ℕ) → Sound s → Sound (settle_get s i (get s.queue))
  unfolding settle_get get get_taken
  get-Sound s i v = record {
    counted = ground (arith, v.counted, length-pop_front s.queue.items);
    bounded = ground (arith, v.bounded);
    kept = ground (arith, append-nil s.got, split_front s.queue.items s.got s.sent v.kept);
    full_seen = λ j y e h. ground (arith, v.full_seen j y);
    empty_seen = λ j e h. ground (arith, v.empty_seen j);
    put_halts = λ h. ground (arith, v.put_halts);
    get_halts = λ h. ground (arith, v.get_halts);
    halts = λ h. ground (arith, v.halts);
  }

  put_resumed-Sound :
      (s : Users A) (i : ℕ) (x : A) → Sound s → Sound (settle_put s i x (put_resumed s.queue x))
  unfolding settle_put put_resumed put put_stored
  put_resumed-Sound s i x v = record {
    counted = ground (arith, v.counted, length-append s.queue.items (x ∷ []));
    bounded = ground (arith, v.bounded);
    kept = ground (arith, v.kept, append-nil s.sent, append_assoc s.got s.queue.items (x ∷ []));
    full_seen = λ j y e h. ground (arith, v.full_seen j y, v.bounded);
    empty_seen = λ j e h. ground (arith, v.empty_seen j);
    put_halts = λ h. ground (arith, v.put_halts);
    get_halts = λ h. ground (arith, v.get_halts);
    halts = λ h. ground (arith, v.halts);
  }

  get_resumed-Sound : (s : Users A) (i : ℕ) → Sound s → Sound (settle_get s i (get_resumed s.queue))
  unfolding settle_get get_resumed get get_taken
  get_resumed-Sound s i v = record {
    counted = ground (arith, v.counted, length-pop_front s.queue.items);
    bounded = ground (arith, v.bounded);
    kept = ground (arith, append-nil s.got, split_front s.queue.items s.got s.sent v.kept);
    full_seen = λ j y e h. ground (arith, v.full_seen j y);
    empty_seen = λ j e h. ground (arith, v.empty_seen j);
    put_halts = λ h. ground (arith, v.put_halts);
    get_halts = λ h. ground (arith, v.get_halts);
    halts = λ h. ground (arith, v.halts);
  }

  peek-Sound :
      (s : Users A) (remove : Bool) → Sound s → Sound (settle_peek s remove (peek s.queue remove))
  unfolding settle_peek peek
  peek-Sound s remove v = record {
    counted = ground (arith, v.counted, length-pop_front s.queue.items);
    bounded = ground (arith, v.bounded);
    kept = ground (arith, append-nil s.got, split_front s.queue.items s.got s.sent v.kept);
    full_seen = λ j y e h. ground (arith, v.full_seen j y);
    empty_seen = λ j e h. ground (arith, v.empty_seen j);
    put_halts = λ h. ground (arith, v.put_halts);
    get_halts = λ h. ground (arith, v.get_halts);
    halts = λ h. ground (arith, v.halts);
  }

  moved-Sound :
      (s : Users A) (i : ℕ) (p : BoundedPc A)
      → (p ≡ empty_woken) ⊎ ((x : A) × (p ≡ full_woken x))
      → Sound s
      → Sound (record s { pc = move s.pc i p })
  moved-Sound s i p woken v = record {
    counted = v.counted;
    bounded = v.bounded;
    kept = v.kept;
    full_seen = λ j y e h. ground (arith, v.full_seen j y);
    empty_seen = λ j e h. ground (arith, v.empty_seen j);
    put_halts = v.put_halts;
    get_halts = v.get_halts;
    halts = v.halts;
  }

  UserStep-Sound : {s t : Users A} → UserStep s t → Sound s → Sound t
  unfolding quit quit_thread_get quit_thread_put
  UserStep-Sound {s = s} (puts i x e) v = put-Sound s i x v
  UserStep-Sound {s = s} (gets i e) v = get-Sound s i v
  UserStep-Sound {s = s} (peeks remove) v = peek-Sound s remove v
  UserStep-Sound {s = s} (wakes_put i x e h) v = moved-Sound s i (full_woken x) (inr (x, refl)) v
  UserStep-Sound {s = s} (wakes_get i e h) v = moved-Sound s i empty_woken (inl refl) v
  UserStep-Sound {s = s} (resumes_put i x e) v = put_resumed-Sound s i x v
  UserStep-Sound {s = s} (resumes_get i e) v = get_resumed-Sound s i v
  UserStep-Sound quits v = record {
    counted = v.counted;
    bounded = v.bounded;
    kept = v.kept;
    full_seen = λ j y e h. refl;
    empty_seen = λ j e h. refl;
    put_halts = λ h. (refl, refl);
    get_halts = λ h. (refl, refl);
    halts = λ h. inl refl;
  }
  UserStep-Sound quits_get v = record {
    counted = v.counted;
    bounded = v.bounded;
    kept = v.kept;
    full_seen = v.full_seen;
    empty_seen = λ j e h. refl;
    put_halts = λ h. (refl, (v.put_halts h).1);
    get_halts = λ h. (refl, refl);
    halts = λ h. inr refl;
  }
  UserStep-Sound quits_put v = record {
    counted = v.counted;
    bounded = v.bounded;
    kept = v.kept;
    full_seen = λ j y e h. refl;
    empty_seen = v.empty_seen;
    put_halts = λ h. (refl, refl);
    get_halts = λ h. (refl, (v.get_halts h).1);
    halts = λ h. inl refl;
  }

  -- In every state that threads reach by `put`, `get`, `peek`, `quit`, `quit_thread_get` and
  -- `quit_thread_put`: the deque holds as many items as counted and at most `bound`; the items taken,
  -- with those in the deque behind them, are those accepted, in their order; a thread that waits
  -- finds its event set as soon as the queue is not full, or not empty, any more; a side that has
  -- been told to stop finds its event set too, and the queue stopped, and only that stops it.
  pub Reached-Sound : {bound : ℕ} {s : Users A} → Reached bound s → Sound s
  unfolding start create
  Reached-Sound here = record {
    counted = refl;
    bounded = omega arith;
    kept = refl;
    full_seen = λ j y e h. ground arith;
    empty_seen = λ j e h. ground arith;
    put_halts = λ h. ground arith;
    get_halts = λ h. ground arith;
    halts = λ h. ground arith;
  }
  Reached-Sound (next r st) = UserStep-Sound st (Reached-Sound r)
