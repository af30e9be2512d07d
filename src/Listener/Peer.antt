-- ===== src/Listener/Peer.antt =====
-- inc/sglib/iocp/iocp_socket.h: class peer_socket, the socket that connects.
use libiocp.Base.{
  ℕ, ◌^◌, ◌-◌, Bool, true, false, List, [], ◌∷◌, ◌++◌, ◌==◌, if◌then◌else◌, ◌≡◌, ◌≢◌, arith,
}
use libiocp.Listener.{NetCall, wsa_startup, wsa_cleanup, opens, closes, set_sockopt, wsa_ioctl}

-- INVALID_SOCKET.
abbrev pub invalid_socket : ℕ
invalid_socket = 2 ^ 64 - 1

pub record Peer : Type 0 where
  pub socket : ℕ
  pub err : ℕ
  pub calls : List NetCall

unfoldable pub peer_create : Peer
peer_create = record { socket = invalid_socket; err = 0; calls = [] }

-- What the system answers: whether WSAStartup, the keep-alive call and `connect` succeed, what
-- `socket` returns, and the code of WSAGetLastError.
pub record PeerAnswers : Type 0 where
  pub started : Bool
  pub sock : ℕ
  pub keeps : Bool
  pub connects : Bool
  pub code : ℕ

-- SO_KEEPALIVE is taken off by `setsockopt`, and the times are set by `WSAIoctl`.
unfoldable pub set_keep_alive : Peer → (on succeeds : Bool) → (code : ℕ) → Peer × Bool
set_keep_alive p on succeeds code =
    let q = record p {
      calls = p.calls ++ (if on then wsa_ioctl p.socket else set_sockopt p.socket) ∷ [];
    } in
    if succeeds then (q, true) else (record q { err = code }, false)

-- `socket_open` behind the call of `socket`.
unfoldable pub peer_connect : Peer → PeerAnswers → Peer × ℕ
unfolding set_keep_alive
peer_connect p a =
    let (q, kept) = set_keep_alive p true a.keeps a.code in
    if kept then (if a.connects then (q, 1) else (record q { err = a.code }, 0)) else (q, 0)

unfoldable pub peer_open : Peer → PeerAnswers → Peer × ℕ
unfolding peer_connect
peer_open p a =
    let q = record p { calls = p.calls ++ wsa_startup ∷ [] } in
    if a.started
    then (if a.sock == invalid_socket
        then (record q { socket = a.sock; err = a.code }, 0)
        else peer_connect (record q { socket = a.sock; calls = q.calls ++ opens a.sock ∷ [] }) a)
    else (record q { err = a.code }, 0)

-- The test is against 0, so a socket that was never opened is closed as well.
unfoldable pub peer_close : Peer → Peer
peer_close p = record p {
  socket = 0;
  calls = p.calls ++ ((if p.socket == 0 then [] else closes p.socket ∷ []) ++ wsa_cleanup ∷ []);
}

-- A peer whose `connect` fails, after all before it has succeeded, still has its socket.
pub refused_keeps :
    (p : Peer) (a : PeerAnswers)
    → a.started ≡ true
    → a.sock ≢ invalid_socket
    → a.keeps ≡ true
    → a.connects ≡ false
    → ((peer_open p a).1 ≡ 0)
      × ((peer_open p a).0.socket ≡ a.sock)
      × ((peer_open p a).0.calls
          ≡ ((p.calls ++ wsa_startup ∷ []) ++ opens a.sock ∷ []) ++ wsa_ioctl a.sock ∷ [])
unfolding peer_open peer_connect set_keep_alive
refused_keeps p a started sock keeps refused = ground arith
