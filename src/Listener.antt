-- ===== src/Listener.antt =====
-- inc/sglib/iocp/iocp_socket.h: the socket that listens and the loop of its thread, and the socket
-- that connects. What the system answers to each call is an argument.
pub mod Limit
pub mod Peer
mod Tests
use libiocp.Base.{
  ℕ, zero, suc, Bool, true, false, ◌||◌, ◌&&◌, List, [], ◌∷◌, ◌++◌, Option, none, some, ◌==◌,
  if◌then◌else◌, ℤ, pos, negsuc, dec,
}

-- The calls on the system that open and close things.
pub data NetCall : Type 0 where
  wsa_startup wsa_cleanup : NetCall
  opens shuts closes : ℕ → NetCall
  set_sockopt wsa_ioctl : ℕ → NetCall

-- `socket` is `none` where `_socket` is INVALID_SOCKET.
pub record Listener : Type 0 where
  pub socket : Option ℕ
  pub port : ℕ
  pub err : ℕ
  pub session_limit : ℤ
  pub calls : List NetCall

unfoldable pub create : (port : ℕ) (session_limit : ℤ) → Listener
create port limit = record {
  socket = none;
  port = port;
  err = 0;
  session_limit = limit;
  calls = [];
}

-- The answer of `accept`: the socket of a client, or the code of WSAGetLastError.
pub data Accept : Type 0 where
  accepted refused : ℕ → Accept

-- One turn of the loop: whether `_stop` is set at its head, the answer of `accept`, and whether
-- `session_join` takes the client.
pub record Turn : Type 0 where
  pub stop : Bool
  pub accept : Accept
  pub joins : Bool

pub data TurnEnd : Type 0 where
  quits : TurnEnd
  goes_on : ℤ → List ℕ → TurnEnd

abbrev pub is_zero : ℤ → Bool
is_zero (pos zero) = true
is_zero _ = false

abbrev pub is_positive : ℤ → Bool
is_positive (pos (suc n)) = true
is_positive _ = false

abbrev pub wsaeconnreset : ℕ
wsaeconnreset = 10054

-- What the end of the loop's body comes to; every code but WSAECONNRESET leads to a `break`.
unfoldable pub accept_turn : ℤ → Accept → Bool → TurnEnd
accept_turn limit (refused err) joins = if err == wsaeconnreset then goes_on limit [] else quits
accept_turn limit (accepted client) joins =
    if is_positive limit && joins then goes_on (dec limit) (client ∷ []) else goes_on limit []

unfoldable pub listener_turn : ℤ → Turn → TurnEnd
unfolding accept_turn
listener_turn limit t =
    if t.stop || is_zero limit then quits else accept_turn limit t.accept t.joins

-- The loop over the turns so far: whether it has ended, the limit, and the clients that joined.
unfoldable pub listen_loop : ℤ → List Turn → Bool × ℤ × List ℕ
unfolding listener_turn
listen_loop limit [] = (is_zero limit, limit, [])
listen_loop limit (t ∷ ts) = elim (listener_turn limit t) [
  | quits ↦ (true, limit, [])
  | goes_on l js ↦ let (ended, left, more) = listen_loop l ts in (ended, left, js ++ more)
]

-- `if(_session_limit == -1) _session_limit = 0x7fffffff`.
abbrev pub start_limit : ℤ → ℤ
start_limit (negsuc zero) = pos 0x7fffffff
start_limit n = n

unfoldable pub listener_loop : Listener → List Turn → Bool × Listener × List ℕ
unfolding listen_loop
listener_loop l ts =
    let (ended, left, joined) = listen_loop (start_limit l.session_limit) ts in
    (ended, record l { session_limit = left }, joined)

abbrev close_calls : Option ℕ → List NetCall
close_calls none = []
close_calls (some s) = shuts s ∷ closes s ∷ []

-- `socket_close` of the listener.
unfoldable pub socket_close : Listener → Listener
socket_close l = record l {
  socket = none;
  calls = l.calls ++ (close_calls l.socket ++ wsa_cleanup ∷ []);
}

-- `socket_open` from the return of `socket` on: `bound` and `listens` tell whether `bind` and
-- `listen` succeed, and `code` is the code of WSAGetLastError.
unfoldable pub open_bound : Listener → (bound listens : Bool) (code : ℕ) → Listener × ℕ
unfolding socket_close
open_bound l bound listens code =
    if bound
    then (if listens then (l, 1) else (socket_close (record l { err = code }), 0))
    else (record l { err = code }, 0)

unfoldable pub socket_open : Listener → Option ℕ → (bound listens : Bool) (code : ℕ) → Listener × ℕ
unfolding open_bound
socket_open l none bound listens code =
    (record l { socket = none; err = code; calls = l.calls ++ wsa_startup ∷ [] }, 0)
socket_open l (some s) bound listens code =
    open_bound (record l { socket = some s; calls = l.calls ++ wsa_startup ∷ opens s ∷ [] }) bound
      listens code
