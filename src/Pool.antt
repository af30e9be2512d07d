-- ===== src/Pool.antt =====
-- inc/sglib/thread/sglib_thread.h: class thread_pool.
pub mod Serving
pub mod Abort
pub mod Status
mod Tests
use libiocp.Base.{
  ℕ, zero, suc, ◌+◌, ◌<◌, ◌≡◌, Bool, true, false, List, [], ◌∷◌, ◌++◌, Option, none, some, ◌==◌,
  if◌then◌else◌, ltb, leb, ℤ, pos, negsuc,
}
use libiocp.Sync.{Event, event_create, event_signal, event_reset, passed}
use libiocp.Thread.{Thread, Created, create, run_func}

-- Where the thread of a slot stands in `thread_run_loop`; `crashed` is the call of a null function.
pub data Worker : Type 0 where
  unstarted at_wait woken exited crashed : Worker
  running : (f p : ℕ) → Worker

-- thread_t; `worker` is the thread itself, and `ran` the tasks that it has finished.
pub record Slot : Type 0 where
  pub t : Thread
  pub control_event : Event
  pub thread_event : Event
  pub loop_f : Option ℕ
  pub loop_p : ℕ
  pub abort : Bool
  pub worker : Worker
  pub ran : List (ℕ × ℕ)

pub record ThreadPool : Type 0 where
  pub num : ℕ
  pub threads : ℕ → Slot

abbrev pub max_threads : ℕ
max_threads = 128

abbrev pub update_slot : (ℕ → Slot) → ℕ → Slot → ℕ → Slot
update_slot f i s j = if i == j then s else f j

-- The body of the loop of `create`; `param` is a field that the constructor of the thread leaves.
unfoldable pub create_slot : (param : ℕ) → Slot → Slot
unfolding event_reset create
create_slot param s = record s {
  t = create (pos 0) param;
  control_event = (event_reset s.control_event).0;
  thread_event = (event_reset s.thread_event).0;
  abort = false;
  loop_f = none;
  loop_p = 0;
}

-- The loop over the slots from `i` on, `n` of them.
unfoldable pub each_slot : (Slot → Slot) → (n i : ℕ) → (ℕ → Slot) → ℕ → Slot
each_slot f zero i slots = slots
each_slot f (suc n) i slots = each_slot f n (suc i) (update_slot slots i (f (slots i)))

unfoldable pub pool_create : ThreadPool → ℕ → (param : ℕ) → ThreadPool × Bool
unfolding create_slot each_slot
pool_create p nthreads param =
    let q = record p { num = nthreads } in
    if leb max_threads q.num
    then (q, false)
    else (record q { threads = each_slot (create_slot param) q.num 0 q.threads }, true)

-- `t->run (thread_run_loop, &_threads[i])`: `loop` and `self` are the two pointers.
unfoldable pub run_slot : (loop self : ℕ) → Created → Slot → Slot
unfolding run_func
run_slot loop self c s = record s {
  t = (run_func s.t loop self c).0;
  worker = if c.handle == 0 then s.worker else at_wait;
}

-- The turns of `thread_run_loop`, each from one place where other threads can come between to the
-- next: the wait takes the signal, the test of `abort` or the call of the function, its return.
unfoldable pub worker_step : Slot → Option Slot
unfolding event_signal
worker_step s = elim s.worker [
  | unstarted ↦ none
  | at_wait ↦
      if s.control_event.signaled
      then some (record s { control_event = passed s.control_event; worker = woken })
      else none
  | woken ↦
      if s.abort
      then some (record s { thread_event = (event_signal s.thread_event).0; worker = exited })
      else some
          (record s { worker = elim s.loop_f [ none ↦ crashed | some f ↦ running f s.loop_p ] })
  | running f p ↦ some (record s {
    thread_event = (event_signal s.thread_event).0;
    worker = at_wait;
    ran = s.ran ++ (f, p) ∷ [];
  })
  | exited ↦ none
  | crashed ↦ none
]

-- `thread_run` on a slot.
unfoldable pub thread_run : Slot → (func param : ℕ) → Slot
unfolding event_signal
thread_run s func param = record s {
  loop_f = some func;
  loop_p = param;
  control_event = (event_signal s.control_event).0;
}

pub data ThreadStatus : Type 0 where
  thread_idle thread_busy thread_aborted : ThreadStatus

-- `thread_status` on a slot: a wait of no time.
unfoldable pub thread_status : Slot → Slot × ThreadStatus
thread_status s =
    if s.thread_event.signaled
    then (record s { thread_event = passed s.thread_event }, thread_idle)
    else (s, thread_busy)

-- `thread_waitfinished` on a slot; `none` while it waits.
unfoldable pub thread_waitfinished : Slot → Option (Slot × Bool)
thread_waitfinished s =
    if s.thread_event.signaled
    then some (record s { thread_event = passed s.thread_event }, true)
    else none

-- `thread_abort` on a slot: its signal, and its wait.
unfoldable pub thread_abort_signal : Slot → Slot
unfolding event_signal
thread_abort_signal s = record s { abort = true; control_event = (event_signal s.control_event).0 }

unfoldable pub thread_abort_wait : Slot → Option Slot
thread_abort_wait s =
    if s.thread_event.signaled
    then some (record s { thread_event = passed s.thread_event })
    else none

-- The first loop of `abort`: `none` where it goes beyond the array.
unfoldable pub abort_signals : ThreadPool → Option ThreadPool
unfolding thread_abort_signal each_slot
abort_signals p =
    if ltb max_threads p.num
    then none
    else some (record p { threads = each_slot thread_abort_signal p.num 0 p.threads })

-- Behind the second loop, which waits for each thread to end and deletes it.
unfoldable pub abort_end : ThreadPool → ThreadPool
abort_end p = record p { num = 0 }
