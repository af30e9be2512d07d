-- ===== src/Pool/Status.antt =====
-- What `thread_status` tells.
use libiocp.Base.{◌≡◌, false, none, arith}
use libiocp.Pool.{
  at_wait, Slot, worker_step, thread_status, thread_idle, thread_busy, thread_waitfinished,
}

-- Once `thread_status` has answered that a thread is idle, it answers that it is busy until another
-- task has finished, and `thread_waitfinished` waits for that too: the thread itself only waits.
pub status_once :
    (s : Slot)
    → s.worker ≡ at_wait
    → s.control_event.signaled ≡ false
    → s.thread_event.manual ≡ false
    → (thread_status s).1 ≡ thread_idle
    → let t = (thread_status s).0 in
      ((thread_status t).1 ≡ thread_busy) × (thread_waitfinished t ≡ none) × (worker_step t ≡ none)
unfolding thread_status thread_waitfinished worker_step
status_once s w c m e = ground arith
