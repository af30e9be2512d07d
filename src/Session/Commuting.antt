-- ===== src/Session/Commuting.antt =====
-- What one completion of a send or of a receive does in the normal course: some bytes have gone
-- through, and the call that may follow returns 0 or is pending.
pub mod Logs
pub mod Halves
pub mod Runs
pub mod Orders
mod Tests
use libiocp.Base.{
  ℕ, ◌≡◌, ◌≢◌, refl, sym, ap, ◌∙◌, Bool, true, false, List, [], ◌∷◌, ◌++◌, map, arith, ◌==◌, ltb,
  if◌then◌else◌, slice, write, ℕ_discrete, Bool-cases, inl, inr,
}
use mathlib.Core.List.{append-nil, append_assoc}
use libiocp.Iobuf.{
  Iobuf, get_used_bufs, get_unused_bufs, head_move, trail_move, length_used, fast_copy,
}
use libiocp.Frame.{Header, header_size}
use libiocp.Package.{NetStatus, Package}
use libiocp.Queue.{Queue, put}
use libiocp.Session.State.{
  Session, IoCondition, io_send, io_recv, SysCall, wsa_recv, wsa_send, World, notify, init_package,
  send_finished, recv_finished, recv_failed, protocol_error,
}
use libiocp.Session.Io.{
  IoResult, completed, failed, wsa_io_pending, Extract, malformed, incomplete, complete,
  recv_extract_package, take_package, recv_parsed, recv_package, receive, receive_failed,
  send_block, send_failed, send_package, send_olp, recv_olp, process_iocp, process_done,
}

abbrev pub statuses : World → List NetStatus
statuses w = map Package.status w.queue.items

-- What of a notice reaches the queue.
abbrev pub heard : (socket : ℕ) (stop : Bool) → NetStatus → List NetStatus
heard socket stop n = if socket == 0 then [] else if stop then [] else n ∷ []

abbrev pub hears : World → NetStatus → List NetStatus
hears w n = heard w.session.socket w.queue.stop n

-- `v` is `w` with its session changed to `s`, and with more calls and notices.
pub record Did (w v : World) (s : Session) (cs : List SysCall) (ns : List NetStatus) : Type 0 where
  pub session : v.session ≡ s
  pub calls : v.calls ≡ w.calls ++ cs
  pub notices : statuses v ≡ statuses w ++ ns
  pub sessions : v.sessions ≡ w.sessions
  pub stop : v.queue.stop ≡ w.queue.stop

map-append :
    (xs : List Package) (p : Package)
    → map Package.status (xs ++ p ∷ []) ≡ map Package.status xs ++ p.status ∷ []
map-append [] p = refl
map-append (x ∷ xs) p = ap (λ l. x.status ∷ l) (map-append xs p)

notify-Did : (w : World) (n : NetStatus) (err : ℕ) → Did w (notify w n err) w.session [] (hears w n)
unfolding notify init_package put
notify-Did w n err = record {
  session = ground arith;
  calls = ground (arith, append-nil w.calls);
  notices = ground (
    arith,
    append-nil (statuses w),
    map-append w.queue.items
        (record { status = n; session = w.session.id; pack_size = w.session.pack_size; err = err }),
  );
  sessions = ground arith;
  stop = ground arith;
}

-- The same for a world whose session has been changed to `s`.
notified :
    (w : World) (s : Session) (n : NetStatus)
    → s.socket ≡ w.session.socket
    → Did w (notify (record w { session = s }) n 0) s [] (hears w n)
notified w s n same =
    let d = notify-Did (record w { session = s }) n 0 in
    record {
      session = d.session;
      calls = d.calls;
      notices = d.notices ∙ ap (λ k. statuses w ++ heard k w.queue.stop n) same;
      sessions = d.sessions;
      stop = d.stop;
    }

-- `_err` behind a call that is pending or not.
abbrev pub mark : (pending : Bool) → ℕ → ℕ
mark pending err = if pending then wsa_io_pending else err

abbrev pub result : (pending : Bool) → IoResult
result pending = if pending then failed wsa_io_pending else completed

-- The send half: the buffer with the sent bytes taken off, the call for the rest, and the notice.
abbrev pub rest_calls : Iobuf → List SysCall
rest_calls b =
    let u = get_used_bufs b in
    if length_used b == 0 then [] else wsa_send (slice u.buf1 u.len1 b.buf) ∷ []

abbrev pub rest_notices : (NetStatus → List NetStatus) → Iobuf → List NetStatus
rest_notices hear b = if length_used b == 0 then hear NetStatus.send_finished else []

abbrev pub sent : Session → ℕ → Bool → Session
sent s t pending =
    let b = head_move s.send_buf t in
    record s { send_buf = b; err = (if length_used b == 0 then s.err else mark pending s.err) }

send_package-Did :
    (w : World) (t : ℕ) (pending : Bool)
    → w.session.send_op ≡ io_send
    → Did w
        (send_package w t (result pending)).0
        (sent w.session t pending)
        (rest_calls (head_move w.session.send_buf t))
        (rest_notices (hears w) (head_move w.session.send_buf t))
unfolding send_package send_block send_failed send_finished
send_package-Did w t pending op =
    let b = head_move w.session.send_buf t in
    elim (ℕ_discrete (length_used b) 0) [
      | yes e ↦ rw e (notified w (record (w.session) { send_buf = b }) NetStatus.send_finished refl)
      | no ne ↦ record {
        session = ground (arith, op);
        calls = ground (arith);
        notices = ground (arith, append-nil (statuses w));
        sessions = ground arith;
        stop = ground arith;
      }
    ]

-- The receive half: what becomes of the buffer `b` behind the bytes that have arrived.
abbrev pub next_calls : Iobuf → Extract → List SysCall
next_calls b incomplete =
    let u = get_unused_bufs b in wsa_recv u (if u.len2 == 0 then 1 else 2) ∷ []
next_calls b _ = []

abbrev pub next_notices :
    (NetStatus → List NetStatus) → (room : ℕ) → Extract × Header → List NetStatus
next_notices hear room (malformed, h) = hear NetStatus.protocol_error
next_notices hear room (incomplete, h) = []
next_notices hear room (complete, h) =
    if ltb room h.size then hear NetStatus.recv_failed else hear NetStatus.recv_finished

abbrev pub landed : Session → Iobuf → Bool → Extract × Header → Session
landed s b pending (malformed, h) = record s { recv_buf = b; pack_size = h.size }
landed s b pending (incomplete, h) = record s {
  recv_buf = b;
  pack_size = h.size;
  err = mark pending s.err;
}
landed s b pending (complete, h) =
    let body = head_move b header_size in
    if ltb s.io_recv_buf_len h.size
    then record s { recv_buf = b; pack_size = h.size }
    else record s {
      recv_buf = head_move body h.size;
      pack_size = h.size;
      io_recv_buf = write 0 (fast_copy body h.size) s.io_recv_buf;
    }

recv_parsed-Did :
    (w : World) (b : Iobuf) (pending : Bool) (x : Extract × Header)
    → w.session.recv_op ≡ io_recv
    → Did w
        (recv_parsed w b (result pending) x).0
        (landed w.session b pending x)
        (next_calls b x.0)
        (next_notices (hears w) w.session.io_recv_buf_len x)
unfolding recv_parsed protocol_error receive receive_failed take_package recv_failed recv_finished
recv_parsed-Did w b pending (malformed, h) op =
    notified w (record (w.session) { recv_buf = b; pack_size = h.size }) NetStatus.protocol_error
      refl
recv_parsed-Did w b pending (incomplete, h) op = record {
  session = ground (arith, op);
  calls = ground (arith);
  notices = ground (arith, append-nil (statuses w));
  sessions = ground arith;
  stop = ground arith;
}
recv_parsed-Did w b pending (complete, h) op =
    let body = head_move b header_size in
    let s = record (w.session) { recv_buf = b; pack_size = h.size } in
    elim (Bool-cases (ltb w.session.io_recv_buf_len h.size)) [
      | inl e ↦ rw e (notified w s NetStatus.recv_failed refl)
      | inr e ↦ rw e (
          notified w
            (record s {
              recv_buf = head_move body h.size;
              io_recv_buf = write 0 (fast_copy body h.size) s.io_recv_buf;
            })
            NetStatus.recv_finished refl)
    ]

-- A completion of some bytes, with the code of GetLastError, and whether the call that may follow is
-- pending.
pub data Completion : Type 0 where
  sends receives : (trans err : ℕ) (pending : Bool) → Completion

abbrev pub is_send : Completion → Bool
is_send (sends t e p) = true
is_send (receives t e p) = false

abbrev pub HasBytes : Completion → Type 0
HasBytes (sends t e p) = t ≢ 0
HasBytes (receives t e p) = t ≢ 0

abbrev pub handle : World → Completion → World
handle w (sends t e p) = process_iocp w t send_olp e (result p)
handle w (receives t e p) = process_iocp w t recv_olp e (result p)

-- What it makes of the session, the calls and the notices.
unfoldable pub step : Session → Completion → Session
step s (sends t e p) = sent s t p
step s (receives t e p) = let b = trail_move s.recv_buf t in landed s b p (recv_extract_package b)

unfoldable pub step_calls : Session → Completion → List SysCall
step_calls s (sends t e p) = rest_calls (head_move s.send_buf t)
step_calls s (receives t e p) =
    let b = trail_move s.recv_buf t in next_calls b (recv_extract_package b).0

unfoldable pub step_notices : (NetStatus → List NetStatus) → Session → Completion → List NetStatus
step_notices hear s (sends t e p) = rest_notices hear (head_move s.send_buf t)
step_notices hear s (receives t e p) =
    next_notices hear s.io_recv_buf_len (recv_extract_package (trail_move s.recv_buf t))

process_send :
    (w : World) (t err : ℕ) (io : IoResult)
    → t ≢ 0
    → w.session.send_op ≡ io_send
    → process_iocp w t send_olp err io ≡ (send_package w t io).0
unfolding process_iocp process_done
process_send w t err io some op = ground (arith, op)

process_recv :
    (w : World) (t err : ℕ) (io : IoResult)
    → t ≢ 0
    → w.session.recv_op ≡ io_recv
    → process_iocp w t recv_olp err io ≡ (recv_package w t io).0
unfolding process_iocp process_done
process_recv w t err io some op = ground (arith, op)

-- Neither operation has been turned into a quit.
abbrev pub IsLive : Session → Type 0
IsLive s = (s.send_op ≡ io_send) × (s.recv_op ≡ io_recv)

pub handle-Did :
    (w : World) (c : Completion)
    → HasBytes c
    → IsLive w.session
    → Did w
        (handle w c)
        (step w.session c)
        (step_calls w.session c)
        (step_notices (hears w) w.session c)
unfolding step step_calls step_notices recv_package
handle-Did w (sends t e p) some (op, _) =
    rw (process_send w t e (result p) some op) (send_package-Did w t p op)
handle-Did w (receives t e p) some (_, op) = rw (process_recv w t e (result p) some op) (
    recv_parsed-Did w (trail_move w.session.recv_buf t) p
      (recv_extract_package (trail_move w.session.recv_buf t)) op)
