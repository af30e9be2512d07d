-- ===== src/Sync/Tests.antt =====
-- Three events.
use libiocp.Base.{◌≡◌, refl, true, false, [], ◌∷◌, pos, negsuc}
use libiocp.Sync.{Event, sleeping, returned, events_wait}

abbrev up : Event
up = record { manual = false; signaled = true }

abbrev down : Event
down = record { manual = false; signaled = false }

-- One event that is not signaled keeps the wait for several from its end.
events_wait_runs : events_wait (up ∷ down ∷ up ∷ []) (negsuc 0) ≡ sleeping (up ∷ down ∷ up ∷ [])
unfolding events_wait
events_wait_runs = refl

events_wait_all : events_wait (up ∷ up ∷ []) (pos 0) ≡ returned true (down ∷ down ∷ [])
unfolding events_wait
events_wait_all = refl
