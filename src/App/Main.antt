-- ===== src/App/Main.antt =====
-- examples/server/server.cpp and examples/client/client.cpp: the loop in `main`, and what `main` of the
-- server opens and closes.
pub mod Turns
pub mod Ending
pub mod Connecting
use libiocp.Base.{ℕ, zero, suc, Bool, true, false, ◌==◌, if◌then◌else◌, ◌≡◌}
use libiocp.Package.{Package}
use libiocp.Queue.{quit}
use libiocp.Loop.{Loop, Callback, Tick, ran, waits, isquit, peek, tick}
use libiocp.Server.{Server, Answers, ref, deref, server_open, server_close}

-- How a turn of the loop of `main` ends: behind `break`, at the next turn, or in the wait of `tick`.
pub data MainTurn (A : Type 0) : Type 0 where
  breaks turns sleeps : Loop → A → MainTurn A

module _ {A : Type 0} (imp : Callback → Loop → A → Loop × A) where
  abbrev after_tick : Tick A → MainTurn A
  after_tick (ran m b) = turns m b
  after_tick (waits m b) = sleeps m b

  -- `tick` returns 1.
  unfoldable pub main_turn : Loop → A → MainTurn A
  unfolding isquit
  main_turn l a =
      if isquit l then breaks l a else if peek l then after_tick (tick imp l a) else turns l a

  -- At most `n` turns.
  unfoldable pub main_loop : (n : ℕ) → Loop → A → MainTurn A
  main_loop zero l a = turns l a
  main_loop (suc n) l a = elim (main_turn l a) [
    | turns m b ↦ main_loop n m b
    | breaks m b ↦ breaks m b
    | sleeps m b ↦ sleeps m b
  ]

-- `main` of the server over its answers. `work` is what becomes of the server from the start of the
-- listener's thread to the end of the loop, and `posted` and `junk` are for its closing. At the end of
-- the scope the loop gives up its reference, and the server is closed again.
unfoldable pub server_main :
    (work : Server → Server) → Server → Answers → (posted : Bool) → Package → Server
unfolding ref deref server_close
server_main work s a posted junk =
    let (o, opened) = server_open s a in
    if opened == 0
    then server_close o posted junk
    else let served = work (ref o) in
      let stopped = record served {
        boss = record (served.boss) { queue = quit served.boss.queue };
      } in
      let closed = deref (server_close stopped posted junk) in
      server_close (deref closed) posted junk
