-- ===== src/Pool/Tests.antt =====
-- A slot and its uses.
use libiocp.Base.{◌≡◌, ◌⊎◌, ◌≤◌, ◌<◌, refl, true, false, [], ◌∷◌, none, some, pos}
use libiocp.Sync.{Event, event_create}
use libiocp.Thread.{Thread}
use libiocp.Pool.{
  at_wait, running, Slot, ThreadPool, max_threads, pool_create, abort_signals, worker_step,
  thread_run, thread_waitfinished, thread_abort_signal,
}
use libiocp.Pool.Serving.{
  free, awaiting, Served, here, next, asks, works, gets, ServeSteps, IsFresh, CanReturn,
  served_in_order, wait_returns,
}
use libiocp.Pool.Abort.{worker_run, Ended, abort_ends, create_overrun}

abbrev down : Event
down = record { manual = false; signaled = false }

abbrev up : Event
up = record { manual = false; signaled = true }

abbrev handle : Thread
handle = record { param = 0; loop = none; loop_func = some 1; handle = 9; id = 5; priority = pos 0 }

abbrev slot : Slot
slot = record {
  t = handle;
  control_event = down;
  thread_event = down;
  loop_f = none;
  loop_p = 0;
  abort = false;
  worker = at_wait;
  ran = [];
}

abbrev fresh : Served
fresh = record { slot = slot; user = free; asked = [] }

fresh-IsFresh : IsFresh fresh
unfolding event_create
fresh-IsFresh = record {
  user = refl;
  asked = refl;
  ran = refl;
  worker = refl;
  control = refl;
  finished = refl;
  abort = refl;
}

abbrev given : Served
given = record { slot = thread_run slot 4 2; user = awaiting; asked = (4, 2) ∷ [] }

abbrev done : Slot
done = record slot { loop_f = some 4; loop_p = 2; ran = (4, 2) ∷ [] }

abbrev served : Served
served = record { slot = done; user = free; asked = (4, 2) ∷ [] }

serves : ServeSteps fresh served
unfolding thread_run worker_step thread_waitfinished
serves =
    next
      (next (next (next (next here (asks 4 2 refl)) (works _ refl)) (works _ refl)) (works _ refl))
      (gets done true refl refl)

served_in_order_example : served.slot.ran ≡ served.asked
served_in_order_example = served_in_order serves fresh-IsFresh refl

wait_returns_example : CanReturn given
wait_returns_example = wait_returns (next here (asks 4 2 refl)) fresh-IsFresh refl

abbrev working : Slot
working = record done { worker = running 6 1 }

abort_ends_example : Ended working (worker_run 4 (thread_abort_signal working))
abort_ends_example = abort_ends working tt

abbrev ready : Slot
ready = record done { thread_event = up }

abbrev pool : ThreadPool
pool = record { num = 0; threads = λ i. slot }

create_overrun_example :
    let (q, made) = pool_create pool 200 0 in
    ((200 < max_threads) × (made ≡ true) × ((r : ThreadPool) × (abort_signals q ≡ some r)))
    ⊎ ((max_threads ≤ 200) × (made ≡ false) × ((200 ≡ max_threads) ⊎ (abort_signals q ≡ none)))
create_overrun_example = create_overrun pool 200 0
