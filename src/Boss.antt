-- ===== src/Boss.antt =====
-- inc/sglib/iocp/iocp_session.h: class iocp_session_boss, the owner of the sessions. Each function
-- but `sessions_close_sockets` runs under the critical section of the boss.
pub mod Ids
pub mod Sockets
pub mod Walking
mod Tests
use libiocp.Base.{ℕ, length, ◌+◌, List, [], ◌∷◌, ◌++◌, ◌==◌, if◌then◌else◌}
use libiocp.Package.{Package}
use libiocp.Queue.{Queue}
use libiocp.Registry
use libiocp.Session.State.{Session, World, SysCall, close_socket}
use libiocp.Session.Api.{create, join_iocp}

-- `store` holds the session objects by id; `sessions` are the ids in the vector.
pub record Boss : Type 0 where
  pub sessions : List ℕ
  pub store : ℕ → Session
  pub count : ℕ
  pub send_bufsize : ℕ
  pub recv_bufsize : ℕ
  pub queue : Queue Package
  pub calls : List SysCall

abbrev pub update : (ℕ → Session) → ℕ → Session → ℕ → Session
update f i s j = if i == j then s else f j

-- What a session of the boss works on.
abbrev pub world : Boss → Session → World
world b s = record { session = s; queue = b.queue; sessions = b.sessions; calls = b.calls }

-- What the allocation of a session brings: the fields that no constructor sets, and the storage of
-- the two buffers.
pub record Memory : Type 0 where
  pub fields : Session
  pub send_mem : List ℕ
  pub recv_mem : List ℕ

-- `handle` and `code` are what the completion port answers to `join_iocp`.
unfoldable pub session_join : Boss → (socket : ℕ) → Memory → (handle code : ℕ) → Boss × ℕ
unfolding create join_iocp
session_join b socket m handle code =
    let ses = create m.fields b.count socket m.send_mem m.recv_mem b.send_bufsize b.recv_bufsize in
    let (w, joined) = join_iocp (world b ses) handle code in
    let b' = record b {
      count = b.count + 1;
      store = update b.store b.count w.session;
      queue = w.queue;
      calls = w.calls;
    } in
    if joined == 0 then (b', 0) else (record b' { sessions = b.sessions ++ b.count ∷ [] }, 1)

unfoldable pub session_remove : Boss → ℕ → Boss
session_remove b s = record b { sessions = (Registry.session_remove b.sessions s).0 }

-- The loop of `sessions_close_sockets` over the rest of the vector.
unfoldable pub close_all : Boss → List ℕ → Boss
close_all b [] = b
close_all b (s ∷ rest) =
    let w = close_socket (world b (b.store s)) in
    close_all (record b { store = update b.store s w.session; calls = w.calls }) rest

unfoldable pub sessions_close_sockets : Boss → Boss
unfolding close_all
sessions_close_sockets b = close_all b b.sessions

unfoldable pub sessions_clear : Boss → Boss
sessions_clear b = record b { sessions = [] }

-- The constructor; `store` is the memory of the sessions to come, and `queue` the message queue.
unfoldable pub boss_create :
    (send_bufsize recv_bufsize : ℕ) (store : ℕ → Session) (queue : Queue Package) → Boss
boss_create send_bufsize recv_bufsize store queue = record {
  sessions = [];
  store = store;
  count = 0;
  send_bufsize = send_bufsize;
  recv_bufsize = recv_bufsize;
  queue = queue;
  calls = [];
}

unfoldable pub session_count : Boss → ℕ
session_count b = length b.sessions
