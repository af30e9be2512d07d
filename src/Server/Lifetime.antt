-- ===== src/Server/Lifetime.antt =====
-- What a server holds from `open` to `close`.
use libiocp.Base.{
  ℕ, ◌≡◌, ◌⊎◌, refl, ap, ◌∙◌, Bool, true, false, [], Option, none, some, arith, inc, dec, dec-inc,
}
use libiocp.Package.{Package}
use libiocp.Boss.{sessions_clear}
use libiocp.Listener.{Listener, socket_open, open_bound, socket_close}
use libiocp.Server.{
  Server, Answers, ref, destroy, deref, post_quit, iocp_open, iocp_close, open_port, server_open,
  server_close,
}

pub close-closed :
    (s : Server) (posted : Bool) (junk : Package) → (server_close s posted junk).closed ≡ true
unfolding server_close iocp_close post_quit deref destroy
close-closed s posted junk = ground arith

pub close_noop :
    (s : Server) (posted : Bool) (junk : Package) → s.closed ≡ true → server_close s posted junk ≡ s
unfolding server_close
close_noop s posted junk e = rw e refl

-- A second `close` changes nothing.
pub close-close :
    (s : Server) (posted again : Bool) (junk other : Package)
    → server_close (server_close s posted junk) again other ≡ server_close s posted junk
close-close s posted again junk other =
    close_noop (server_close s posted junk) again other (close-closed s posted junk)

pub close-refs :
    (s : Server) (posted : Bool) (junk : Package)
    → s.closed ≡ false
    → (server_close s posted junk).refs ≡ dec s.refs
unfolding server_close iocp_close post_quit deref destroy
close-refs s posted junk e = ground arith

close-listener :
    (s : Server) (posted : Bool) (junk : Package)
    → s.closed ≡ false
    → (server_close s posted junk).listener.socket ≡ none
unfolding server_close iocp_close post_quit deref destroy socket_close
close-listener s posted junk e = ground arith

close-sessions :
    (s : Server) (posted : Bool) (junk : Package)
    → s.closed ≡ false
    → (server_close s posted junk).boss.sessions ≡ []
unfolding server_close iocp_close post_quit deref destroy sessions_clear
close-sessions s posted junk e = ground arith

open_port-opened :
    (s : Server) (a : Answers)
    → (open_port s a).1 ≡ 1
    → ((open_port s a).0.refs ≡ inc s.refs) × ((open_port s a).0.closed ≡ false)
unfolding open_port ref iocp_open
open_port-opened s a e = ground arith

pub server_open-opened :
    (s : Server) (a : Answers)
    → (server_open s a).1 ≡ 1
    → ((server_open s a).0.refs ≡ inc s.refs) × ((server_open s a).0.closed ≡ false)
unfolding server_open
server_open-opened s a e =
    let l : Listener × ℕ = socket_open s.listener a.sock a.bound a.listens a.code in
    ground (arith, open_port-opened (record s { listener = l.0 }) a)

-- A server that has opened and is then closed has no listening socket and no sessions, is closed,
-- and leaves the count of the message queue as it was before the opening.
pub open_close :
    (s : Server) (a : Answers) (posted : Bool) (junk : Package)
    → (server_open s a).1 ≡ 1
    → let c = server_close (server_open s a).0 posted junk in
      (c.refs ≡ s.refs) × (c.listener.socket ≡ none) × (c.boss.sessions ≡ []) × (c.closed ≡ true)
open_close s a posted junk e =
    let o : Server = (server_open s a).0 in
    let (counted, runs) = server_open-opened s a e in
    (
      close-refs o posted junk runs ∙ ap dec counted ∙ dec-inc s.refs,
      close-listener o posted junk runs,
      close-sessions o posted junk runs,
      close-closed o posted junk,
    )

-- The listening socket cannot be had.
abbrev pub IsRefused : Answers → Type 0
IsRefused a = (a.sock ≡ none) ⊎ ((a.bound ≡ false) ⊎ (a.listens ≡ false))

socket_open-refused :
    (l : Listener) (sock : Option ℕ) (bound listens : Bool) (code : ℕ)
    → (sock ≡ none) ⊎ ((bound ≡ false) ⊎ (listens ≡ false))
    → (socket_open l sock bound listens code).1 ≡ 0
unfolding socket_open open_bound
socket_open-refused l none bound listens code h = refl
socket_open-refused l (some x) bound listens code h = ground arith

server_open-refused :
    (s : Server) (a : Answers)
    → IsRefused a
    → ((server_open s a).1 ≡ 0)
      × ((server_open s a).0.refs ≡ s.refs)
      × ((server_open s a).0.closed ≡ s.closed)
unfolding server_open
server_open-refused s a h =
    ground (arith, socket_open-refused s.listener a.sock a.bound a.listens a.code h)

-- If the listening socket cannot be had, a server that is not closed opens with the result 0 and
-- takes no reference to the message queue; closing it, as its destructor does, gives one up.
pub refused_unrefs :
    (s : Server) (a : Answers) (posted : Bool) (junk : Package)
    → IsRefused a
    → s.closed ≡ false
    → ((server_open s a).1 ≡ 0)
      × ((server_open s a).0.refs ≡ s.refs)
      × ((server_close (server_open s a).0 posted junk).refs ≡ dec s.refs)
refused_unrefs s a posted junk h runs =
    let (r, counted, kept) = server_open-refused s a h in
    (r, counted, close-refs (server_open s a).0 posted junk (kept ∙ runs) ∙ ap dec counted)
