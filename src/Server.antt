-- ===== src/Server.antt =====
-- inc/sglib/iocp/iocp_server.h: class iocp_server, a listener with a boss of sessions, over the
-- completion port (iocp.h) and the reference count of the message queue (sglib_refT.h).
pub mod Lifetime
mod Tests
use libiocp.Base.{
  ℕ, suc, ◌+◌, ◌*◌, Bool, true, false, Option, none, some, ◌==◌, if◌then◌else◌, ℤ, pos, negsuc, inc,
  dec,
}
use libiocp.Package.{NetStatus, Package}
use libiocp.Queue.{Queue, put, quit, clear}
use libiocp.Session.State.{Session}
use libiocp.Boss.{Boss, boss_create, session_count, sessions_close_sockets, sessions_clear}
use libiocp.Listener.{Listener, create, socket_open, socket_close, is_positive}

-- `port` is the handle of the completion port, 0 for NULL, and `refs` the count of the message
-- queue, which stands in the boss.
pub record Server : Type 0 where
  pub listener : Listener
  pub boss : Boss
  pub refs : ℤ
  pub port : ℕ
  pub thread_count : ℕ
  pub workers : ℕ
  pub stop : Bool
  pub closed : Bool
  pub iocp_threads : ℤ

-- The constructors of the listener, the boss and the server. `refs` and `queue` are those of the
-- message queue that is there, and `unset` is the field of the port that no constructor sets.
unfoldable pub server_create :
    (port : ℕ) (client_limited : ℤ) (send_bufsize recv_bufsize : ℕ) (iocp_threads : ℤ)
    (store : ℕ → Session) (queue : Queue Package) (refs : ℤ) (unset : ℕ)
    → Server
server_create port client_limited send_bufsize recv_bufsize iocp_threads store queue refs unset =
    record {
      listener = create port client_limited;
      boss = boss_create send_bufsize recv_bufsize store queue;
      refs = refs;
      port = 0;
      thread_count = unset;
      workers = 0;
      stop = false;
      closed = false;
      iocp_threads = iocp_threads;
    }

unfoldable pub get_client_count : Server → ℕ
unfolding session_count
get_client_count s = session_count s.boss

-- `threadrefT::ref` and `deref`; `destroy` of the message queue stops and empties it.
unfoldable pub ref : Server → Server
ref s = record s { refs = inc s.refs }

unfoldable pub destroy : Server → Server
destroy s = record s { boss = record (s.boss) { queue = clear (quit s.boss.queue) } }

unfoldable pub deref : Server → Server
unfolding destroy
deref s = let d = record s { refs = dec s.refs } in if is_positive d.refs then d else destroy d

-- `post_quit` of the message queue; `junk` has the fields that are left unset.
unfoldable pub post_quit : Server → Package → Server
post_quit s junk = record s {
  boss = record (s.boss) { queue = (put s.boss.queue (record junk { status = NetStatus.quit })).0 };
}

-- `iocp::open`: `handle` is what CreateIoCompletionPort returns; each queued work item is a worker.
unfoldable pub iocp_open : Server → (thread_count handle : ℕ) → Server × ℕ
iocp_open s count handle =
    let p = record s { port = handle } in
    if handle == 0 then (p, 0) else (record p { thread_count = count; workers = count }, 1)

-- `iocp::close`, run until its wait has returned; `posted` tells whether every
-- PostQueuedCompletionStatus succeeds. Which workers are gone then is not said.
unfoldable pub iocp_close : Server → Bool → Server
iocp_close s posted = if s.port == 0 then s else if posted then record s { port = 0 } else s

abbrev count_threads : ℤ → ℕ → ℕ
count_threads (pos (suc n)) processors = suc n
count_threads _ processors = 2 * processors + 2

-- What the system answers while the server opens: `socket`, `bind`, `listen`, the code of
-- WSAGetLastError, the number of processors and the handle of the completion port.
pub record Answers : Type 0 where
  pub sock : Option ℕ
  pub bound : Bool
  pub listens : Bool
  pub code : ℕ
  pub processors : ℕ
  pub handle : ℕ

-- `open` behind the opening of the socket.
unfoldable pub open_port : Server → Answers → Server × ℕ
unfolding ref iocp_open
open_port s a =
    let (p, opened) = iocp_open (ref s) (count_threads s.iocp_threads a.processors) a.handle in
    if opened == 0
    then (record p { listener = socket_close p.listener }, 0)
    else (record p { closed = false }, 1)

unfoldable pub server_open : Server → Answers → Server × ℕ
unfolding open_port
server_open s a =
    let (l, opened) = socket_open s.listener a.sock a.bound a.listens a.code in
    if opened == 0
    then (record s { listener = socket_close l }, 0)
    else open_port (record s { listener = l }) a

-- `close`, which ends once the workers and the thread of the listener have let its waits return.
unfoldable pub server_close : Server → (posted : Bool) → Package → Server
unfolding iocp_close post_quit deref
server_close s posted junk =
    if s.closed
    then s
    else let a = record s { closed = true; boss = sessions_close_sockets s.boss } in
      let b = iocp_close a posted in
      let c = record b {
        boss = sessions_clear b.boss;
        listener = socket_close b.listener;
        stop = true;
      } in
      deref (post_quit c junk)
