-- ===== src/Sync.antt =====
-- inc/sglib/thread/sglib_mutex.h, sglib_event.h and sglib_cond.h over their win32 files: mutexes,
-- events and conditions.
pub mod Lock
mod Tests
use libiocp.Base.{
  ℕ, suc, zero, ◌+◌, ◌-◌, Bool, true, false, List, [], ◌∷◌, Option, none, some, ◌==◌, if◌then◌else◌,
  ltb, ℤ, pos, negsuc, map,
}

-- The kernel object behind `_event`: whether ResetEvent alone takes the signal away, and whether the
-- event is signaled.
pub record Event : Type 0 where
  pub manual : Bool
  pub signaled : Bool

-- How far a wait has come: it has returned, or it goes on, with or without an end of its time.
pub data Wait (A : Type 0) : Type 0 where
  returned : Bool → A → Wait A
  sleeping : A → Wait A
  timing : ℕ → A → Wait A

unfoldable pub event_create : (broadcast : Bool) → Event
event_create broadcast = record { manual = broadcast; signaled = false }

unfoldable pub event_signal : Event → Event × ℤ
event_signal e = (record e { signaled = true }, pos 1)

unfoldable pub event_reset : Event → Event × ℤ
event_reset e = (record e { signaled = false }, pos 1)

-- What WaitForSingleObject does to an event that it has waited for.
abbrev pub passed : Event → Event
passed e = record e { signaled = e.manual }

-- A negative time is INFINITE; with the time 0 the wait is over at once.
abbrev pub wait_unsignaled : {A : Type 0} → A → ℤ → Wait A
wait_unsignaled e (negsuc n) = sleeping e
wait_unsignaled e (pos zero) = returned false e
wait_unsignaled e (pos (suc n)) = timing (suc n) e

-- `sync_event::wait`, to the first look at the event.
unfoldable pub event_wait : Event → ℤ → Wait Event
event_wait e timeout = if e.signaled then returned true (passed e) else wait_unsignaled e timeout

-- `sync_events`: the array of events.
unfoldable pub events_create : ℕ → List Event
unfolding event_create
events_create zero = []
events_create (suc n) = event_create false ∷ events_create n

abbrev pub all_signaled : List Event → Bool
all_signaled [] = true
all_signaled (e ∷ es) = let rest = all_signaled es in if e.signaled then rest else false

-- `sync_events::wait`: WaitForMultipleObjects with `bWaitAll` TRUE.
unfoldable pub events_wait : List Event → ℤ → Wait (List Event)
events_wait es timeout =
    if all_signaled es then returned true (map passed es) else wait_unsignaled es timeout

-- A critical section: the thread that holds it, and how often.
pub record Mutex : Type 0 where
  pub owner : Option ℕ
  pub depth : ℕ

unfoldable pub mutex_create : Mutex
mutex_create = record { owner = none; depth = 0 }

abbrev enter_held : Mutex → ℕ → ℕ → Option Mutex
enter_held m t holder = if holder == t then some (record m { depth = m.depth + 1 }) else none

-- `lock` by the thread `t`; `none` while it waits.
unfoldable pub lock : Mutex → ℕ → Option Mutex
lock m t = elim m.owner [
  | none ↦ some (record m { owner = some t; depth = 1 })
  | some holder ↦ enter_held m t holder
]

-- `unlock` by the thread that holds the mutex.
unfoldable pub unlock : Mutex → Mutex
unlock m =
    if m.depth == 1 then record m { owner = none; depth = 0 } else record m { depth = m.depth - 1 }

-- `mutex_locker`: whether `_m` is still set, beside the mutex.
unfoldable pub locker_create : Mutex → ℕ → Option (Bool × Mutex)
unfolding lock
locker_create m t = elim (lock m t) [ none ↦ none | some n ↦ some (true, n) ]

unfoldable pub locker_unlock : Bool × Mutex → Bool × Mutex
unfolding unlock
locker_unlock (held, m) = if held then (false, unlock m) else (held, m)

unfoldable pub locker_destroy : Bool × Mutex → Mutex
unfolding unlock
locker_destroy (held, m) = if held then unlock m else m

-- `condition::wait_signal` by a thread, up to the wait, and from its end on; `ms` as the `int` that
-- `wait` takes. The result is that of `wait`.
unfoldable pub wait_signal : Event → Mutex → ℤ → Wait Event × Mutex
unfolding unlock event_wait
wait_signal e m ms = (event_wait e ms, unlock m)

unfoldable pub wait_signal_end : Bool → Mutex → ℕ → Option (ℤ × Mutex)
unfolding lock
wait_signal_end r m t = elim (lock m t) [
  | none ↦ none
  | some n ↦ some (if r then pos 1 else pos 0, n)
]

-- `condition::signal`, `reset` and `broadcast`, which is `signal`.
unfoldable pub condition_broadcast : Event → Event × ℤ
unfolding event_signal
condition_broadcast e = event_signal e
