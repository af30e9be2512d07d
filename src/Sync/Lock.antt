-- ===== src/Sync/Lock.antt =====
-- The lock that a scope holds.
use libiocp.Base.{ℕ, ◌<◌, ◌≡◌, Bool, none, some, arith, if◌then◌else◌}
use libiocp.Sync.{Mutex, locker_create, locker_unlock, locker_destroy}

-- A mutex is held exactly if it has an owner.
pub record IsValid (m : Mutex) : Type 0 where
  pub free : m.owner ≡ none → m.depth ≡ 0
  pub held : (t : ℕ) → m.owner ≡ some t → 0 < m.depth

-- What the scope of a `mutex_locker` leaves behind, whether it has called `unlock` itself before its
-- end or not: the mutex as it was, however often the thread had already taken it.
pub locker_restores :
    (m : Mutex) (t : ℕ) (early : Bool) (held : Bool) (n : Mutex)
    → IsValid m
    → locker_create m t ≡ some (held, n)
    → (locker_destroy (if early then locker_unlock (held, n) else (held, n)) ≡ m)
      × (n.owner ≡ some t)
unfolding locker_create locker_destroy locker_unlock
locker_restores m t early held n v e = ground (arith, v.free, v.held t)
