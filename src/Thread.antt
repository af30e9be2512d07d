-- ===== src/Thread.antt =====
-- inc/sglib/thread/sglib_thread.h and sglib_thread_win32.hpp: class thread.
pub mod Running
mod Tests
use libiocp.Base.{
  ℕ, ◌+◌, Bool, true, false, List, [], ◌∷◌, ◌++◌, Option, none, some, ◌==◌, if◌then◌else◌, ℤ, pos,
  negsuc, zero, suc, ltb,
}

-- `handle` is 0 for no handle; `param` and the two loops are pointers.
pub record Thread : Type 0 where
  pub param : ℕ
  pub loop : Option ℕ
  pub loop_func : Option ℕ
  pub handle : ℕ
  pub id : ℕ
  pub priority : ℤ

-- The constructor; `param` is the field that it does not set.
unfoldable pub create : ℤ → (param : ℕ) → Thread
create priority param = record {
  param = param;
  loop = none;
  loop_func = none;
  handle = 0;
  id = 0;
  priority = priority;
}

unfoldable pub setpriority : Thread → ℤ → Thread
setpriority t priority = record t { priority = priority }

-- What CreateThread returns, 0 for NULL, and the id of the thread.
pub record Created : Type 0 where
  pub handle : ℕ
  pub id : ℕ

abbrev started : Thread → Created → Thread × ℕ
started t c = (record t { handle = c.handle; id = c.id }, if c.handle == 0 then 0 else 1)

-- The three forms of `run`: with the virtual `loop`, with a function, with a `threadloop`.
unfoldable pub run : Thread → ℕ → Created → Thread × ℕ
run t p c = started (record t { param = p; loop = none; loop_func = none }) c

unfoldable pub run_func : Thread → ℕ → ℕ → Created → Thread × ℕ
run_func t f p c = started (record t { param = p; loop = none; loop_func = some f }) c

unfoldable pub run_object : Thread → ℕ → ℕ → Created → Thread × ℕ
run_object t o p c = started (record t { param = p; loop = some o; loop_func = none }) c

-- What the new thread calls.
pub data Body : Type 0 where
  call_object call_func : ℕ → ℕ → Body
  call_virtual : Body

-- The choice in `run_loop`, which `threadproc` calls.
unfoldable pub run_loop : Thread → Body
run_loop t = elim t.loop [
  | some o ↦ call_object o t.param
  | none ↦ elim t.loop_func [ some f ↦ call_func f t.param | none ↦ call_virtual ]
]

-- The priorities of the system, lowest first.
pub data SystemPriority : Type 0 where
  priority_idle priority_lowest priority_below_normal priority_normal : SystemPriority
  priority_above_normal priority_highest priority_time_critical : SystemPriority

abbrev switch_priority : ℤ → SystemPriority
switch_priority (pos zero) = priority_normal
switch_priority (pos (suc zero)) = priority_above_normal
switch_priority (negsuc zero) = priority_below_normal
switch_priority (pos (suc (suc zero))) = priority_highest
switch_priority (negsuc (suc zero)) = priority_lowest
switch_priority _ = priority_normal

-- `_priority < -2` and `_priority > 2`.
abbrev below_lowest : ℤ → Bool
below_lowest (pos n) = false
below_lowest (negsuc n) = ltb 1 n

abbrev above_highest : ℤ → Bool
above_highest (pos n) = ltb 2 n
above_highest (negsuc n) = false

-- The priority that `set_priority` asks the system for.
unfoldable pub set_priority : ℤ → SystemPriority
set_priority p =
    let switched = switch_priority p in
    let lowered = if below_lowest p then priority_idle else switched in
    if above_highest p then priority_time_critical else lowered

-- What WaitForSingleObject returns.
pub data WaitResult : Type 0 where
  wait_object wait_timeout wait_failed : WaitResult

-- `wait`, once the system has answered, with the handles that it closes.
unfoldable pub wait : Thread → WaitResult → Thread × ℤ × List ℕ
wait t wait_failed = (t, pos 0, [])
wait t wait_object = (record t { handle = 0 }, pos 1, t.handle ∷ [])
wait t wait_timeout = (record t { handle = 0 }, pos 1, t.handle ∷ [])

unfoldable pub kill : Thread → Thread × List ℕ
kill t = (record t { handle = 0 }, if t.handle == 0 then [] else t.handle ∷ [])
