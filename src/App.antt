-- ===== src/App.antt =====
-- examples/server/server.cpp and examples/client/client.cpp: the two programs over the library.
-- The server sends a file in pieces, and the client asks for each with "ok" and writes it to a copy.
pub mod Server
pub mod Client
pub mod Copying
pub mod Freed
pub mod Main
mod Tests
use libiocp.Base.{ℕ, ◌+◌, List, [], ◌∷◌, ◌++◌, ◌==◌, if◌then◌else◌, ℤ, true}
use libiocp.Boss.{update}
use libiocp.Listener.{is_zero}
use libiocp.Loop.{Loop, connections, quit_loop}
use libiocp.Session.State.{Session, World, SysCall}
use libiocp.Session.Io.{IoResult}

-- What a program shares with its sessions; `freed` are the sessions that it deleted, in their order,
-- `asked` counts its calls on sessions, and `answers` is what the system says to each.
pub record Shared : Type 0 where
  pub store : ℕ → Session
  pub sessions : List ℕ
  pub calls : List SysCall
  pub freed : List ℕ
  pub answers : ℕ → IoResult
  pub asked : ℕ

-- The session that the loop serves, in what it works on.
abbrev pub world_of : Loop → Shared → World
world_of l a = record {
  session = a.store l.session;
  queue = l.queue;
  sessions = a.sessions;
  calls = a.calls;
}

-- A call on `_session`; `_queue` of the loop is the queue of the sessions.
abbrev pub call_session : (World → IoResult → World × ℤ) → Loop → Shared → Loop × Shared
call_session f l a =
    let w = (f (world_of l a) (a.answers a.asked)).0 in
    (
      record l { queue = w.queue },
      record a {
        store = update a.store l.session w.session;
        sessions = w.sessions;
        calls = w.calls;
        asked = a.asked + 1;
      },
    )

-- `delete _session`.
abbrev pub delete_session : Loop → Shared → Shared
delete_session l a = record a { freed = a.freed ++ l.session ∷ [] }

-- `if (0 == connections()) quit_loop(true)`.
unfoldable pub quit_if_alone : Loop → Loop
unfolding quit_loop connections
quit_if_alone l = if is_zero (connections l) then quit_loop l true else l
