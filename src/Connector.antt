-- ===== src/Connector.antt =====
-- inc/sglib/iocp/iocp_client.h: class iocp_client, a boss of the sessions that connect to a server.
pub mod Opening
mod Tests
use libiocp.Base.{ℕ, Bool, true, false, List, [], ◌∷◌, ◌++◌, ◌==◌, if◌then◌else◌}
use libiocp.Package.{Package}
use libiocp.Queue.{Queue}
use libiocp.Session.State.{Session}
use libiocp.Boss.{Boss, Memory, boss_create, session_join, sessions_close_sockets, sessions_clear}
use libiocp.Listener.{NetCall}
use libiocp.Listener.Peer.{PeerAnswers, peer_create, peer_open}

-- `port` is the handle of the completion port, 0 for NULL, and `calls` are those on the sockets that
-- connect.
pub record Client : Type 0 where
  pub boss : Boss
  pub port : ℕ
  pub workers : ℕ
  pub calls : List NetCall

-- The constructors of the client, its boss and its completion port.
unfoldable pub client_create :
    (send_bufsize recv_bufsize : ℕ) (store : ℕ → Session) (queue : Queue Package) → Client
client_create send_bufsize recv_bufsize store queue = record {
  boss = boss_create send_bufsize recv_bufsize store queue;
  port = 0;
  workers = 0;
  calls = [];
}

-- `iocp_open`, that is `_iocp.open (1)`: `handle` is what CreateIoCompletionPort returns.
unfoldable pub client_open : Client → (handle : ℕ) → Client × ℕ
client_open c handle =
    let p = record c { port = handle } in
    if handle == 0 then (p, 0) else (record p { workers = 1 }, 1)

-- `close`, run until the wait of `_iocp.close` has returned; `posted` tells whether its
-- PostQueuedCompletionStatus succeeds.
unfoldable pub client_close : Client → (posted : Bool) → Client
client_close c posted =
    let b = sessions_close_sockets c.boss in
    let p = if c.port == 0 then c.port else if posted then 0 else c.port in
    record c { boss = sessions_clear b; port = p }

-- What the system answers to one connection, and the memory of its session.
pub record Connection : Type 0 where
  pub answers : PeerAnswers
  pub memory : Memory
  pub handle : ℕ
  pub code : ℕ

-- One turn of the loop of `sessions_open`: the client, and whether the loop goes on.
unfoldable pub open_turn : Client → Connection → Client × Bool
open_turn c t =
    let (p, opened) = peer_open peer_create t.answers in
    let d = record c { calls = c.calls ++ p.calls } in
    if opened == 0
    then (d, false)
    else (record d { boss = (session_join d.boss p.socket t.memory t.handle t.code).0 }, true)

-- As many turns as there are connections to open.
unfoldable pub sessions_open : Client → List Connection → Client × Bool
unfolding open_turn
sessions_open c [] = (c, true)
sessions_open c (t ∷ ts) =
    let (d, goes_on) = open_turn c t in
    let rest = sessions_open d ts in if goes_on then rest else (d, false)
