-- ===== src/App/Main/Ending.antt =====
-- The references to the message queue in the life of the server program.
use libiocp.Base.{refl, [], pos, ◌≡◌, ap, ◌∙◌, Bool, true, arith, inc, dec, dec-inc}
use libiocp.Package.{Package}
use libiocp.Queue.{quit, clear}
use libiocp.Server.{Server, Answers, ref, deref, destroy, server_open, server_close}
use libiocp.Server.Lifetime.{server_open-opened, close-refs, close-closed, close_noop}
use libiocp.App.Main.{server_main}

deref_facts : (s : Server) → ((deref s).refs ≡ dec s.refs) × ((deref s).closed ≡ s.closed)
unfolding deref destroy
deref_facts s = ground arith

-- The server where `main` has given up its reference, and the loop still has its own.
abbrev released : (Server → Server) → Server → Answers → Bool → Package → Server
released work s a posted junk =
    let served : Server = work (ref (server_open s a).0) in
    deref (
      server_close
        (record served { boss = record (served.boss) { queue = quit served.boss.queue } }) posted
        junk)

module _ (work : Server → Server) (s : Server) (a : Answers) (posted : Bool) (junk : Package)
    (keeps : (t : Server) → ((work t).refs ≡ t.refs) × ((work t).closed ≡ t.closed))
    (opened : (server_open s a).1 ≡ 1) where
  released_facts :
      ((released work s a posted junk).refs ≡ s.refs)
      × ((released work s a posted junk).closed ≡ true)
  unfolding ref
  released_facts =
      let o : Server = (server_open s a).0 in
      let (counted, runs) = server_open-opened s a opened in
      let (kept, open_still) = keeps (ref o) in
      let served : Server = work (ref o) in
      let stopped : Server = record served {
        boss = record (served.boss) { queue = quit served.boss.queue };
      } in
      let closing = close-refs stopped posted junk (open_still ∙ runs) in
      let (once, shut) = deref_facts (server_close stopped posted junk) in
      (
        once
            ∙ ap dec (closing ∙ ap dec (kept ∙ ap inc counted) ∙ dec-inc (inc s.refs))
            ∙ dec-inc s.refs,
        shut ∙ close-closed stopped posted junk,
      )

  -- The loop gives up its reference last: the second close does nothing.
  main_as : server_main work s a posted junk ≡ deref (released work s a posted junk)
  unfolding server_main
  main_as =
      let last = deref (released work s a posted junk) in
      rw opened (
        close_noop last posted junk
          ((deref_facts (released work s a posted junk)).1 ∙ released_facts.1))

  -- Every reference that the server program takes to the message queue is given back, by `close`, by
  -- `main` and by the destructor of the loop, and none twice: the count ends at one less than `init`
  -- of the queue left, whatever the loop does that keeps the count and does not close the server.
  pub server_main-refs :
      ((server_main work s a posted junk).refs ≡ dec s.refs)
      × ((server_main work s a posted junk).closed ≡ true)
  server_main-refs =
      let (refs, shut) = deref_facts (released work s a posted junk) in
      (
        ap Server.refs main_as ∙ refs ∙ ap dec released_facts.0,
        ap Server.closed main_as ∙ shut ∙ released_facts.1,
      )

deref-last :
    (s : Server)
    → s.refs ≡ pos 1
    → ((deref s).boss.queue.stop ≡ true) × ((deref s).boss.queue.items ≡ [])
unfolding deref destroy clear quit
deref-last s e = rw e (refl, refl)

-- A server program that opens and starts with the first reference alone ends closed, with no
-- reference left and its message queue destroyed, which is then stopped and empty, whatever the loop
-- does that keeps the count and does not close the server.
pub server_main-destroyed :
    (work : Server → Server) (s : Server) (a : Answers) (posted : Bool) (junk : Package)
    → ((t : Server) → ((work t).refs ≡ t.refs) × ((work t).closed ≡ t.closed))
    → (server_open s a).1 ≡ 1
    → s.refs ≡ pos 1
    → let end = server_main work s a posted junk in
      (end.refs ≡ pos 0)
      × (end.closed ≡ true)
      × (end.boss.queue.stop ≡ true)
      × (end.boss.queue.items ≡ [])
server_main-destroyed work s a posted junk keeps opened first =
    let (refs, shut) = server_main-refs work s a posted junk keeps opened in
    let one = (released_facts work s a posted junk keeps opened).0 ∙ first in
    let (stopped, emptied) = deref-last (released work s a posted junk) one in
    let same = main_as work s a posted junk keeps opened in
    (
      refs ∙ ap dec first,
      shut,
      ap (λ e. e.boss.queue.stop) same ∙ stopped,
      ap (λ e. e.boss.queue.items) same ∙ emptied,
    )
