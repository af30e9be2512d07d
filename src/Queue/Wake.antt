-- ===== src/Queue/Wake.antt =====
-- Whether a consumer that sleeps in `get` of queueT is woken: with one consumer, and with more.
use libiocp.Base.{
  ℕ, ◌<◌, ◌≡◌, refl, ◌≢◌, ◌⊎◌, inl, inr, true, false, List, [], ◌∷◌, ◌++◌, arith, length,
  Bool-cases,
}
use mathlib.Core.List.{append-nil}
use libiocp.Queue.{Queue, put, get, resume, quit, clear, init}
use libiocp.Queue.Threads.{
  idle, waiting, woken, System, update, settle, Step, puts, gets, wakes, resumes, quits, clears,
  inits, start, Reach, here, next, Reach-Inv,
}

module _ {A : Type 0} where
  -- Something for a sleeper to return with: an item or the stop signal.
  abbrev pub HasNews : Queue A → Type 0
  HasNews q = (q.count ≢ 0) ⊎ (q.stop ≡ true)

  -- The only consumer does not sleep through news: the event is set.
  abbrev pub Alert : System A → Type 0
  Alert s = s.pc 0 ≡ waiting → HasNews s.queue → s.queue.not_empty ≡ true

  Step-Alert : {s t : System A} → Step 1 s t → Alert s → Alert t
  unfolding put get resume quit clear init settle
  Step-Alert (puts x) a w news = ground (arith, a w)
  Step-Alert (gets i wait lt e) a w news = ground arith
  Step-Alert (wakes i lt e set) a w news = ground arith
  Step-Alert (resumes i lt e) a w news = ground arith
  Step-Alert quits a w news = refl
  Step-Alert (clears h) a w news = a w (inr h)
  Step-Alert (inits h) a w news = a w (inr h)

  Reach-Alert : {s : System A} → Reach 1 s → Alert s
  unfolding start
  Reach-Alert here w news = ground arith
  Reach-Alert (next r st) w news = Step-Alert st (Reach-Alert r) w news

  pub data Steps (n : ℕ) (s : System A) : System A → Type 0 where
    done : Steps n s s
    more : {t u : System A} → Steps n s t → Step n t u → Steps n s u

  -- The state after a sleeper wakes and finishes its call.
  served : System A → System A
  served s = settle asleep 0 (resume asleep.queue)
    where
      asleep : System A
      asleep = record s { queue = record (s.queue) { not_empty = false }; pc = update s.pc 0 woken }

  -- What a woken call has done: given up because of the stop, or taken the oldest item.
  abbrev pub Outcome : System A → System A → Type 0
  Outcome s t =
      ((s.queue.stop ≡ true) × (t.got ≡ s.got))
      ⊎ ((x : A) × (s.queue.stop ≡ false)
          × (s.queue.items ≡ x ∷ t.queue.items)
          × (t.got ≡ s.got ++ x ∷ []))

  served_as :
      (s : System A) (xs : List A)
      → s.queue.items ≡ xs
      → s.queue.count ≡ length xs
      → HasNews s.queue
      → ((served s).pc 0 ≡ idle) × Outcome s (served s)
  unfolding served resume settle
  served_as s [] e c news = (ground arith, inl (ground arith, ground (arith, append-nil s.got)))
  served_as s (x ∷ xs) e c news = elim (Bool-cases s.queue.stop) [
    | inl halted ↦ (ground arith, inl (halted, ground (arith, append-nil s.got)))
    | inr runs ↦ (ground arith, inr (x, runs, ground arith, ground arith))
  ]

  served_sent : (s : System A) → (served s).sent ≡ s.sent
  unfolding served resume settle
  served_sent s = ground arith

  -- The consumer wakes from its wait, with nothing done to the items, and finishes its call.
  pub record Returned (s t : System A) : Type 0 where
    pub between : System A
    pub wakes : Step 1 s between
    pub woken : between.pc 0 ≡ woken
    pub untouched : (between.queue.items ≡ s.queue.items) × (between.queue.stop ≡ s.queue.stop)
    pub resumes : Step 1 between t
    pub out : t.pc 0 ≡ idle
    pub sent : t.sent ≡ s.sent
    pub outcome : Outcome s t

  -- With one consumer, whenever it sleeps while the queue holds an item or has been stopped, the event
  -- is set, and it can wake and finish its call by two steps of its own, with nothing put in between:
  -- with the oldest item, or on a stop with none.
  pub sleeper_returns :
      {s : System A}
      → Reach 1 s
      → s.pc 0 ≡ waiting
      → HasNews s.queue
      → (s.queue.not_empty ≡ true) × ((t : System A) × Returned s t)
  unfolding served
  sleeper_returns {s} r w news = (
    Reach-Alert r w news,
    (
      served s,
      record {
        between = asleep;
        wakes = wakes 0 (omega arith) w (Reach-Alert r w news);
        woken = refl;
        untouched = (refl, refl);
        resumes = resumes 0 (omega arith) refl;
        out = result.0;
        sent = served_sent s;
        outcome = result.1;
      },
    ),
  )
    where
      asleep : System A
      asleep = record s { queue = record (s.queue) { not_empty = false }; pc = update s.pc 0 woken }

      result : ((served s).pc 0 ≡ idle) × Outcome s (served s)
      result = served_as s s.queue.items refl (Reach-Inv r).counted.counted news

  -- A sleeper that nothing will wake: the queue is stopped and the event is not set.
  pub record Stranded (j : ℕ) (s : System A) : Type 0 where
    pub asleep : s.pc j ≡ waiting
    pub halted : s.queue.stop ≡ true
    pub unset : s.queue.not_empty ≡ false

  -- Such a sleeper stays asleep whatever the threads do, but for another `quit` or an `init`.
  pub Step-Stranded :
      {n j : ℕ} {s t : System A}
      → Step n s t
      → Stranded j s
      → Stranded j t ⊎ ((t.queue ≡ quit s.queue) ⊎ (t.queue ≡ init s.queue))
  unfolding put get resume quit clear init settle
  Step-Stranded (puts x) v = inl (ground arith)
  Step-Stranded (gets i wait lt e) v = inl (ground arith)
  Step-Stranded (wakes i lt e set) v = absurd (ground arith)
  Step-Stranded (resumes i lt e) v = inl (ground arith)
  Step-Stranded quits v = inr (inl refl)
  Step-Stranded (clears h) v = inl (ground arith)
  Step-Stranded (inits h) v = inr (inr refl)

  -- One `quit` wakes one sleeper: with two of them, the first can wake and return, and leaves the
  -- second stranded.
  pub quit_strands :
      {n : ℕ} (s : System A) (i j : ℕ)
      → i ≢ j
      → i < n
      → s.pc i ≡ waiting
      → s.pc j ≡ waiting
      → (t : System A) × Steps n s t × (t.pc i ≡ idle) × Stranded j t
  unfolding quit resume settle
  quit_strands s i j ne lt wi wj = (
    settle w i (resume w.queue),
    more (more (more done quits) (wakes i lt wi refl)) (resumes i lt (ground arith)),
    ground arith,
    ground arith,
  )
    where
      w : System A
      w = record s { queue = record (quit s.queue) { not_empty = false }; pc = update s.pc i woken }
