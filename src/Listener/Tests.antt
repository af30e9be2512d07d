-- ===== src/Listener/Tests.antt =====
-- A listener with room for two clients.
use libiocp.Base.{◌≤◌, ◌≡◌, refl, true, false, List, [], ◌∷◌, length, pos, none}
use libiocp.Listener.{Listener, Turn, accepted, refused, listener_loop, wsaeconnreset}
use libiocp.Listener.Limit.{listener_loop_counted}

abbrev listener : Listener
listener = record { socket = none; port = 80; err = 0; session_limit = pos 2; calls = [] }

abbrev turns : List Turn
turns =
    record { stop = false; accept = accepted 9; joins = true }
    ∷ record { stop = false; accept = refused wsaeconnreset; joins = true }
    ∷ record { stop = false; accept = accepted 10; joins = true }
    ∷ record { stop = false; accept = accepted 11; joins = true }
    ∷ []

listener_loop_counted_example :
    let (_, m, joined) = listener_loop listener turns in
    (length joined ≤ 2) × (m.session_limit ≡ pos 0)
unfolding listener_loop
listener_loop_counted_example = listener_loop_counted listener 2 turns refl
