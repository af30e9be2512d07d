-- ===== src/Boss/Sockets.antt =====
-- `sessions_close_sockets`, which the server calls as it closes.
use libiocp.Base.{ℕ, zero, suc, ◌≡◌, refl, List, [], ◌∷◌, ◌==◌, if◌then◌else◌, arith}
use libiocp.Registry.{count}
use libiocp.Session.State.{Session, World, close_socket}
use libiocp.Boss.{Boss, update, world, close_all, sessions_close_sockets}

-- A session without its socket.
abbrev pub closed : Session → Session
closed s = record s { socket = 0 }

close_socket_as :
    (w : World) (n : ℕ) → w.session.socket ≡ n → (close_socket w).session ≡ closed w.session
unfolding close_socket
close_socket_as w zero e = rw e refl
close_socket_as w (suc n) e = ground arith

pub close_socket-session : (w : World) → (close_socket w).session ≡ closed w.session
unfolding close_socket
close_socket-session w = close_socket_as w w.session.socket refl

close_all-store :
    (b : Boss) (xs : List ℕ) (s : ℕ)
    → (close_all b xs).store s ≡ (if count s xs == 0 then b.store s else closed (b.store s))
unfolding close_all count
close_all-store b [] s = refl
close_all-store b (x ∷ xs) s =
    let w = close_socket (world b (b.store x)) in
    let rest =
      close_all-store (record b { store = update b.store x w.session; calls = w.calls }) xs s in
    ground (arith, rest, close_socket-session (world b (b.store x)))

-- After `sessions_close_sockets` each session in the vector has no socket and is otherwise as it was,
-- and each session that is not in the vector is as it was.
pub sessions_close_sockets_lem :
    (b : Boss) (s : ℕ)
    → ((sessions_close_sockets b).store s
        ≡ (if count s b.sessions == 0 then b.store s else closed (b.store s)))
unfolding sessions_close_sockets
sessions_close_sockets_lem b s = close_all-store b b.sessions s
