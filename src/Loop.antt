-- ===== src/Loop.antt =====
-- inc/sglib/iocp/iocp_loop.h: class iocp_loop, which takes packages off the message queue and calls
-- the application. What the callbacks do is a parameter.
pub mod Dispatch
pub mod Running
mod Tests
use libiocp.Base.{
  ℕ, zero, suc, Bool, true, false, Option, none, some, leb, ltb, if◌then◌else◌, ℤ, pos, inc, dec,
}
use libiocp.Package.{NetStatus, Package}
use libiocp.Queue.{Queue, GetStep, returned, blocked, get, resume, put, size}

pub record Loop : Type 0 where
  pub pack : Package
  pub session : ℕ
  pub queue : Queue Package
  pub quiting : Bool
  pub connect_count : ℤ

-- The member functions of `impT` that `tick` calls.
pub data Callback : Type 0 where
  on_connected on_disconnected on_send_finished on_recv_finished on_recv_failed : Callback
  on_noop on_recv_error on_send_error on_protocal_error on_unhandled : Callback

-- The constructor, with the queue that `init` gets; `pack` is not set.
unfoldable pub loop_create : Package → Queue Package → Loop
loop_create pack queue = record {
  pack = pack;
  session = 0;
  queue = queue;
  quiting = false;
  connect_count = pos 0;
}

unfoldable pub connections : Loop → ℤ
connections l = l.connect_count

unfoldable pub isquit : Loop → Bool
isquit l = l.quiting

unfoldable pub quit_loop : Loop → Bool → Loop
quit_loop l b = record l { quiting = b }

-- `peek`.
unfoldable pub peek : Loop → Bool
peek l = ltb 0 (size l.queue)

-- `junk` has the fields of the package that are left unset.
unfoldable pub post_quit_pack : Loop → Package → Loop
post_quit_pack l junk = record l {
  queue = (put l.queue (record junk { status = NetStatus.quit })).0;
}

unfoldable pub post_noop_pack : Loop → Package → Loop
post_noop_pack l junk = record l {
  queue = (put l.queue (record junk { status = NetStatus.noop; session = l.session })).0;
}

-- The callback that a status leads to; `none` for `NET_quit`.
abbrev pub callback : NetStatus → Option Callback
callback NetStatus.connected = some on_connected
callback NetStatus.disconnected = some on_disconnected
callback NetStatus.send_finished = some on_send_finished
callback NetStatus.send_failed = some on_unhandled
callback NetStatus.recv_finished = some on_recv_finished
callback NetStatus.recv_failed = some on_recv_failed
callback NetStatus.noop = some on_noop
callback NetStatus.send_error = some on_send_error
callback NetStatus.recv_error = some on_recv_error
callback NetStatus.protocol_error = some on_protocal_error
callback NetStatus.quit = none

-- What `tick` does to the count of connections before the callback.
abbrev pub count_connect : NetStatus → ℤ → ℤ
count_connect NetStatus.connected n = inc n
count_connect NetStatus.disconnected n = dec n
count_connect _ n = n

-- How a critical section of `tick` ends: `tick` has run, or it waits for a package.
pub data Tick (A : Type 0) : Type 0 where
  ran : Loop → A → Tick A
  waits : Loop → A → Tick A

-- Where `operator ()` stands after some turns: it has returned, waits for a package, or goes on.
pub data Run (A : Type 0) : Type 0 where
  ended waiting going : Loop → A → Run A

module _ {A : Type 0} (imp : Callback → Loop → A → Loop × A) where
  abbrev pub run_callback : Option Callback → Loop → A → Loop × A
  run_callback none l a = (quit_loop l true, a)
  run_callback (some c) l a = imp c l a

  -- The `switch` of `tick` on the package in `_pack`, after `_session` has been set.
  unfoldable pub dispatch : Loop → A → Loop × A
  unfolding quit_loop
  dispatch l a =
      let s = record l {
        session = l.pack.session;
        connect_count = count_connect l.pack.status l.connect_count;
      } in
      run_callback (callback l.pack.status) s a

  -- `_queue->get(&_pack)`: its result is not tested, and `_pack` keeps its value where nothing is
  -- written to it.
  abbrev received : Loop → Option Package → Queue Package → Loop
  received l none q = record l { queue = q }
  received l (some p) q = record l { queue = q; pack = p }

  unfoldable pub tick_got : Loop → A → GetStep Package → Tick A
  unfolding dispatch
  tick_got l a (returned r t q) = let (m, b) = dispatch (received l t q) a in ran m b
  tick_got l a (blocked q) = waits (record l { queue = q }) a

  unfoldable pub tick : Loop → A → Tick A
  unfolding tick_got
  tick l a = tick_got l a (get l.queue true)

  -- `tick` from the end of a wait on.
  unfoldable pub tick_resumed : Loop → A → Tick A
  unfolding tick_got
  tick_resumed l a = tick_got l a (resume l.queue)

  -- `operator ()`, for at most `n` turns; `tick` returns 1.
  unfoldable pub run_loop : (n : ℕ) → Loop → A → Run A
  run_loop zero l a = going l a
  run_loop (suc n) l a = elim (tick l a) [
    | waits m b ↦ waiting m b
    | ran m b ↦ let rest = run_loop n m b in if m.quiting then ended m b else rest
  ]
