-- ===== src/Thread/Tests.antt =====
-- Threads with a function, and their priorities.
use libiocp.Base.{◌≡◌, refl, none, some, pos, [], ◌∷◌}
use libiocp.Thread.{Thread, wait, wait_timeout}

abbrev thread : Thread
thread = record { param = 0; loop = some 3; loop_func = none; handle = 8; id = 1; priority = pos 0 }

-- A wait whose time is over closes the handle like one that has succeeded.
wait_timeout_runs : wait thread wait_timeout ≡ (record thread { handle = 0 }, pos 1, 8 ∷ [])
unfolding wait
wait_timeout_runs = refl
