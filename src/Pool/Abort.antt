-- ===== src/Pool/Abort.antt =====
-- The end of the threads of a pool.
use mathlib.Core.List.{append-nil}
use libiocp.Base.{
  ℕ, zero, suc, ◌≤◌, ◌<◌, ◌≡◌, ◌≢◌, ◌⊎◌, refl, sym, ◌∙◌, inl, inr, dec_lt, true, false, List, [],
  ◌∷◌, ◌++◌, none, some, arith,
}
use libiocp.Sync.{event_signal, passed}
use libiocp.Pool.{
  Worker, unstarted, at_wait, woken, exited, crashed, running, Slot, ThreadPool, max_threads,
  pool_create, each_slot, worker_step, thread_abort_signal, thread_abort_wait, abort_signals,
}

-- At most `n` turns of the thread, until it waits or has ended.
pub worker_run : ℕ → Slot → Slot
worker_run zero s = s
worker_run (suc n) s = elim (worker_step s) [ none ↦ s | some t ↦ worker_run n t ]

-- The task that the thread is running.
abbrev pub in_hand : Worker → List (ℕ × ℕ)
in_hand (running f p) = (f, p) ∷ []
in_hand _ = []

abbrev pub Lives : Worker → Type 0
Lives at_wait = Unit
Lives woken = Unit
Lives (running f p) = Unit
Lives _ = ⊥

-- The slot after the turns that follow an abort.
pub record Ended (s t : Slot) : Type 0 where
  pub worker : t.worker ≡ exited
  pub ran : t.ran ≡ s.ran ++ in_hand s.worker
  pub finished : t.thread_event.signaled ≡ true

run_on : (n : ℕ) (s t : Slot) → worker_step s ≡ some t → worker_run (suc n) s ≡ worker_run n t
unfolding worker_run
run_on n s t e = rw (worker_run, e) refl

run_over : (n : ℕ) (s : Slot) → worker_step s ≡ none → worker_run n s ≡ s
unfolding worker_run
run_over zero s e = refl
run_over (suc n) s e = rw (worker_run, e) refl

from_woken : (n : ℕ) (s : Slot) → s.worker ≡ woken → s.abort ≡ true → Ended s (worker_run (suc n) s)
unfolding worker_step event_signal
from_woken n s w a =
    let t : Slot = record s { thread_event = (event_signal s.thread_event).0; worker = exited } in
    rw (run_on n s t (ground arith), run_over n t refl)
      (record { worker = refl; ran = rw w (sym (append-nil s.ran)); finished = refl })

from_wait :
    (n : ℕ) (s : Slot)
    → s.worker ≡ at_wait
    → s.control_event.signaled ≡ true
    → s.abort ≡ true
    → Ended s (worker_run (suc (suc n)) s)
unfolding worker_step
from_wait n s w c a =
    let t : Slot = record s { control_event = passed s.control_event; worker = woken } in
    let v = from_woken n t refl a in
    rw (run_on (suc n) s t (ground arith))
      (record { worker = v.worker; ran = rw w v.ran; finished = v.finished })

from_running :
    (n : ℕ) (s : Slot) (f p : ℕ)
    → s.worker ≡ running f p
    → s.control_event.signaled ≡ true
    → s.abort ≡ true
    → Ended s (worker_run (suc (suc (suc n))) s)
unfolding worker_step event_signal
from_running n s f p w c a =
    let t : Slot = record s {
      thread_event = (event_signal s.thread_event).0;
      worker = at_wait;
      ran = s.ran ++ (f, p) ∷ [];
    } in
    let v = from_wait n t refl c a in
    rw (run_on (suc (suc n)) s t (ground arith))
      (record { worker = v.worker; ran = rw w (v.ran ∙ append-nil t.ran); finished = v.finished })

abort_ends_as :
    (s : Slot) (w : Worker)
    → s.worker ≡ w
    → Lives w
    → Ended s (worker_run 4 (thread_abort_signal s))
unfolding thread_abort_signal event_signal
abort_ends_as s at_wait e v =
    let r = from_wait 2 (thread_abort_signal s) e refl refl in
    record { worker = r.worker; ran = r.ran; finished = r.finished }
abort_ends_as s woken e v =
    let r = from_woken 3 (thread_abort_signal s) e refl in
    record { worker = r.worker; ran = r.ran; finished = r.finished }
abort_ends_as s (running f p) e v =
    let r = from_running 1 (thread_abort_signal s) f p e refl refl in
    record { worker = r.worker; ran = r.ran; finished = r.finished }
abort_ends_as s unstarted e v = absurd v
abort_ends_as s exited e v = absurd v
abort_ends_as s crashed e v = absurd v

-- After `thread_abort` has signaled, a thread that has been started and lives ends after at most
-- four of its turns, wherever it stands: it finishes the task in hand, if there is one, and takes no
-- other, also if one has been asked for.
pub abort_ends : (s : Slot) → Lives s.worker → Ended s (worker_run 4 (thread_abort_signal s))
abort_ends s v = abort_ends_as s s.worker refl v

-- The wait of `thread_abort` returns while the thread is still there, if a task has finished whose
-- event nobody has waited for.
pub abort_early :
    (s : Slot)
    → s.thread_event.signaled ≡ true
    → s.worker ≢ exited
    → (t : Slot) × (thread_abort_wait (thread_abort_signal s) ≡ some t) × (t.worker ≢ exited)
unfolding thread_abort_wait thread_abort_signal event_signal
abort_early s e live =
    (record (thread_abort_signal s) { thread_event = passed s.thread_event }, ground arith, live)

pool_create-num : (p : ThreadPool) (n param : ℕ) → (pool_create p n param).0.num ≡ n
unfolding pool_create
pool_create-num p n param = ground arith

signals_fit : (p : ThreadPool) → p.num ≤ max_threads → (q : ThreadPool) × (abort_signals p ≡ some q)
unfolding abort_signals
signals_fit p le =
    (record p { threads = each_slot thread_abort_signal p.num 0 p.threads }, ground arith)

signals_overrun : (p : ThreadPool) → max_threads < p.num → abort_signals p ≡ none
unfolding abort_signals
signals_overrun p over = ground arith

create_result :
    (p : ThreadPool) (n param : ℕ)
    → ((n < max_threads) × ((pool_create p n param).1 ≡ true))
      ⊎ ((max_threads ≤ n) × ((pool_create p n param).1 ≡ false))
unfolding pool_create
create_result p n param = elim (dec_lt n max_threads) [
  | yes less ↦ inl (less, ground arith)
  | no more ↦ inr (omega arith, ground arith)
]

-- `create` makes a pool of fewer threads than the array has slots, whose destructor stays inside the
-- array. It refuses more, but keeps their number: unless they are just as many as there are slots, the
-- destructor goes beyond the array.
pub create_overrun :
    (p : ThreadPool) (n param : ℕ)
    → let (q, made) = pool_create p n param in
      ((n < max_threads) × (made ≡ true) × ((r : ThreadPool) × (abort_signals q ≡ some r)))
      ⊎ ((max_threads ≤ n) × (made ≡ false) × ((n ≡ max_threads) ⊎ (abort_signals q ≡ none)))
create_overrun p n param =
    let num = pool_create-num p n param in
    elim (create_result p n param) [
      | inl (less, made) ↦ inl (less, made, signals_fit _ (omega (arith, num)))
      | inr (more, refused) ↦ inr (
        more,
        refused,
        elim (dec_lt max_threads n) [
          | yes over ↦ inr (signals_overrun _ (omega (arith, num)))
          | no same ↦ inl (omega arith)
        ],
      )
    ]
