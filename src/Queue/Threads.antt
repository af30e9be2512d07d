-- ===== src/Queue/Threads.antt =====
-- queueT shared by threads: `n` consumers that block in `get`, and callers of all else, in any order.
-- Between two locks of the mutex nothing else runs, so each critical section is one step. A wait
-- gives the mutex up, sleeps until the auto-reset event is set, resets it, and locks again.
use libiocp.Base.{
  ℕ, ◌<◌, ◌≡◌, refl, ◌∙◌, sym, Bool, true, false, List, [], ◌∷◌, ◌++◌, Option, none, some, arith,
  length, ◌==◌, if◌then◌else◌,
}
use mathlib.Core.List.{append-nil, append_assoc}
use libiocp.Queue.{
  Queue, GetStep, returned, blocked, empty, put, get, resume, quit, clear, init, front, pop_front,
}
use libiocp.Queue.Fifo.{IsValid, put-IsValid, get-IsValid, resume-IsValid}

pub data Pc : Type 0 where
  idle waiting woken : Pc

-- `sent` are the items that were accepted and not cleared away, `got` those that `get` returned.
pub record System (A : Type 0) : Type 0 where
  pub queue : Queue A
  pub pc : ℕ → Pc
  pub sent : List A
  pub got : List A

abbrev pub update : (ℕ → Pc) → ℕ → Pc → ℕ → Pc
update f i p j = if i == j then p else f j

module _ {A : Type 0} where
  abbrev pub received : Option A → List A
  received none = []
  received (some x) = x ∷ []

  unfoldable pub settle : System A → ℕ → GetStep A → System A
  settle s i (returned r t q) = record s {
    queue = q;
    pc = update s.pc i idle;
    got = s.got ++ received t;
  }
  settle s i (blocked q) = record s { queue = q; pc = update s.pc i waiting }

  abbrev pub accepted : Queue A → A → List A
  accepted q x = if q.stop then [] else x ∷ []

  pub data Step (n : ℕ) (s : System A) : System A → Type 0 where
    puts :
        (x : A)
        → Step n s (record s { queue = (put s.queue x).0; sent = s.sent ++ accepted s.queue x })
    gets : (i : ℕ) (wait : Bool) → i < n → s.pc i ≡ idle → Step n s (settle s i (get s.queue wait))
    wakes :
        (i : ℕ)
        → i < n
        → s.pc i ≡ waiting
        → s.queue.not_empty ≡ true
        → Step n s
            (record s { queue = record (s.queue) { not_empty = false }; pc = update s.pc i woken })
    resumes : (i : ℕ) → i < n → s.pc i ≡ woken → Step n s (settle s i (resume s.queue))
    quits : Step n s (record s { queue = quit s.queue })
    clears : s.queue.stop ≡ true → Step n s (record s { queue = clear s.queue; sent = s.got })
    inits : s.queue.stop ≡ true → Step n s (record s { queue = init s.queue; sent = s.got })

  unfoldable pub start : System A
  start = record { queue = empty; pc = λ _. idle; sent = []; got = [] }

  pub data Reach (n : ℕ) : System A → Type 0 where
    here : Reach n start
    next : {s t : System A} → Reach n s → Step n s t → Reach n t

  -- The count is the length of the deque, and nothing is lost, made up or reordered.
  pub record Inv (s : System A) : Type 0 where
    pub counted : IsValid s.queue
    pub kept : s.got ++ s.queue.items ≡ s.sent

  split_items :
      (q : Queue A) (xs : List A)
      → q.items ≡ xs
      → q.count ≡ length xs
      → (got sent : List A) → got ++ xs ≡ sent
      → (got ++ received (front xs)) ++ pop_front xs ≡ sent
  split_items q [] e c got sent k = simp append-nil (sym (append-nil got) ∙ k)
  split_items q (x ∷ xs) e c got sent k = append_assoc got (x ∷ []) xs ∙ k

  get-Inv : (s : System A) (i : ℕ) (wait : Bool) → Inv s → Inv (settle s i (get s.queue wait))
  unfolding settle get
  get-Inv s i wait v = ground (
    arith,
    get-IsValid s.queue wait v.counted,
    append-nil s.got,
    split_items s.queue s.queue.items refl v.counted.counted s.got s.sent v.kept,
  )

  resume-Inv : (s : System A) (i : ℕ) → Inv s → Inv (settle s i (resume s.queue))
  unfolding settle resume
  resume-Inv s i v = ground (
    arith,
    resume-IsValid s.queue v.counted,
    append-nil s.got,
    split_items s.queue s.queue.items refl v.counted.counted s.got s.sent v.kept,
  )

  put-Inv :
      (s : System A) (x : A)
      → Inv s
      → Inv (record s { queue = (put s.queue x).0; sent = s.sent ++ accepted s.queue x })
  unfolding put
  put-Inv s x v = ground (
    arith,
    put-IsValid s.queue x v.counted,
    append-nil s.sent,
    append_assoc s.got s.queue.items (x ∷ []),
  )

  pub Step-Inv : {n : ℕ} {s t : System A} → Step n s t → Inv s → Inv t
  unfolding quit clear init
  Step-Inv {s = s} (puts x) v = put-Inv s x v
  Step-Inv {s = s} (gets i wait lt e) v = get-Inv s i wait v
  Step-Inv (wakes i lt e set) v = record {
    counted = record { counted = v.counted.counted };
    kept = v.kept;
  }
  Step-Inv {s = s} (resumes i lt e) v = resume-Inv s i v
  Step-Inv quits v = record { counted = record { counted = v.counted.counted }; kept = v.kept }
  Step-Inv {s = s} (clears h) v = record {
    counted = record { counted = refl };
    kept = append-nil s.got;
  }
  Step-Inv {s = s} (inits h) v = record {
    counted = record { counted = refl };
    kept = append-nil s.got;
  }

  -- In every state that threads can reach, the items that were put and not cleared away are those
  -- that `get` returned, in the order of the puts, and behind them those in the deque, whose
  -- number is the count.
  pub Reach-Inv : {n : ℕ} {s : System A} → Reach n s → Inv s
  unfolding start empty
  Reach-Inv here = record { counted = record { counted = refl }; kept = refl }
  Reach-Inv (next r st) = Step-Inv st (Reach-Inv r)
