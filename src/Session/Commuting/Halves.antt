-- ===== src/Session/Commuting/Halves.antt =====
-- The two halves of a session: what the completions of sends and of receives read and write.
use libiocp.Base.{ℕ, ◌≡◌, refl, sym, ap, ◌∙◌, Bool, true, false, not, List, [], arith}
use libiocp.Iobuf.{Iobuf, trail_move, head_move}
use libiocp.Frame.{Header}
use libiocp.Package.{NetStatus}
use libiocp.Session.State.{Session, SysCall, wsa_send}
use libiocp.Session.Io.{Extract, malformed, incomplete, complete, recv_extract_package}
use libiocp.Session.Commuting.{
  Completion, sends, receives, is_send, step, step_calls, step_notices, heard, landed, next_calls,
  next_notices,
}
use libiocp.Session.Commuting.Logs.{only}

abbrev pub is_receive : Completion → Bool
is_receive c = not (is_send c)

abbrev pub of_send : SysCall → Bool
of_send (wsa_send bytes) = true
of_send _ = false

abbrev pub tells_send : NetStatus → Bool
tells_send NetStatus.send_finished = true
tells_send _ = false

-- What a receive leaves alone.
pub landed_keeps :
    (s : Session) (b : Iobuf) (p : Bool) (x : Extract × Header)
    → let t = landed s b p x in
      (t.send_buf ≡ s.send_buf)
      × (t.io_recv_buf_len ≡ s.io_recv_buf_len)
      × (t.socket ≡ s.socket)
      × (t.send_op ≡ s.send_op)
      × (t.recv_op ≡ s.recv_op)
landed_keeps s b p (malformed, h) = (refl, refl, refl, refl, refl)
landed_keeps s b p (incomplete, h) = (refl, refl, refl, refl, refl)
landed_keeps s b p (complete, h) = ground arith

pub step_keeps :
    (s : Session) (c : Completion)
    → ((step s c).socket ≡ s.socket)
      × ((step s c).send_op ≡ s.send_op)
      × ((step s c).recv_op ≡ s.recv_op)
unfolding step
step_keeps s (sends t e p) = (refl, refl, refl)
step_keeps s (receives t e p) =
    let b = trail_move s.recv_buf t in
    let (_, _, socket, send_op, recv_op) = landed_keeps s b p (recv_extract_package b) in
    (socket, send_op, recv_op)

landed-recv_buf :
    (s t : Session) (b : Iobuf) (p : Bool) (x : Extract × Header)
    → s.io_recv_buf_len ≡ t.io_recv_buf_len
    → (landed s b p x).recv_buf ≡ (landed t b p x).recv_buf
landed-recv_buf s t b p (malformed, h) e = refl
landed-recv_buf s t b p (incomplete, h) e = refl
landed-recv_buf s t b p (complete, h) e = ground (arith, e)

-- The parts of the session that each direction works on.
abbrev pub SameSend : Session → Session → Type 0
SameSend s t = s.send_buf ≡ t.send_buf

abbrev pub SameRecv : Session → Session → Type 0
SameRecv s t = (s.recv_buf ≡ t.recv_buf) × (s.io_recv_buf_len ≡ t.io_recv_buf_len)

pub receive_keeps :
    (s t : Session) (c : Completion) → is_send c ≡ false → SameSend s t → SameSend (step s c) t
unfolding step
receive_keeps s t (sends n e p) it h = absurd (cc)
receive_keeps s t (receives n e p) it h = (landed_keeps s (trail_move s.recv_buf n) p _).0 ∙ h

pub send_moves :
    (s t : Session) (c : Completion)
    → is_send c ≡ true
    → SameSend s t
    → SameSend (step s c) (step t c)
unfolding step
send_moves s t (sends n e p) it h = ap (λ b. head_move b n) h
send_moves s t (receives n e p) it h = absurd (cc)

pub send_keeps :
    (s t : Session) (c : Completion) → is_receive c ≡ false → SameRecv s t → SameRecv (step s c) t
unfolding step
send_keeps s t (sends n e p) it h = h
send_keeps s t (receives n e p) it h = absurd (cc)

pub receive_moves :
    (s t : Session) (c : Completion)
    → is_receive c ≡ true
    → SameRecv s t
    → SameRecv (step s c) (step t c)
unfolding step
receive_moves s t (sends n e p) it h = absurd (cc)
receive_moves s t (receives n e p) it (same, len) =
    let b = trail_move t.recv_buf n in
    rw same (
      landed-recv_buf s t b p (recv_extract_package b) len,
      (landed_keeps s b p (recv_extract_package b)).1
          ∙ len
          ∙ sym (landed_keeps t b p (recv_extract_package b)).1,
    )

-- The calls and the notices of each direction are its own.
pub send_calls_own :
    (s : Session) (c : Completion)
    → is_send c ≡ true
    → only of_send (step_calls s c) ≡ step_calls s c
unfolding only step_calls
send_calls_own s (sends n e p) it = ground arith
send_calls_own s (receives n e p) it = absurd (cc)

next_calls_other : (b : Iobuf) (x : Extract) → only of_send (next_calls b x) ≡ []
unfolding only
next_calls_other b malformed = refl
next_calls_other b incomplete = refl
next_calls_other b complete = refl

pub send_calls_other :
    (s : Session) (c : Completion) → is_send c ≡ false → only of_send (step_calls s c) ≡ []
unfolding step_calls
send_calls_other s (sends n e p) it = absurd (cc)
send_calls_other s (receives n e p) it = next_calls_other (trail_move s.recv_buf n) _

abbrev pub of_receive : SysCall → Bool
of_receive c = not (of_send c)

abbrev pub tells_receive : NetStatus → Bool
tells_receive n = not (tells_send n)

next_calls_own : (b : Iobuf) (x : Extract) → only of_receive (next_calls b x) ≡ next_calls b x
unfolding only
next_calls_own b malformed = refl
next_calls_own b incomplete = refl
next_calls_own b complete = refl

pub receive_calls_own :
    (s : Session) (c : Completion)
    → is_receive c ≡ true
    → only of_receive (step_calls s c) ≡ step_calls s c
unfolding step_calls
receive_calls_own s (sends n e p) it = absurd (cc)
receive_calls_own s (receives n e p) it = next_calls_own (trail_move s.recv_buf n) _

pub receive_calls_other :
    (s : Session) (c : Completion) → is_receive c ≡ false → only of_receive (step_calls s c) ≡ []
unfolding only step_calls
receive_calls_other s (sends n e p) it = ground arith
receive_calls_other s (receives n e p) it = absurd (cc)

pub send_calls_read :
    (s t : Session) (c : Completion)
    → is_send c ≡ true
    → SameSend s t
    → step_calls s c ≡ step_calls t c
unfolding step_calls
send_calls_read s t (sends n e p) it h = rw h refl
send_calls_read s t (receives n e p) it h = absurd (cc)

pub receive_calls_read :
    (s t : Session) (c : Completion)
    → is_receive c ≡ true
    → SameRecv s t
    → step_calls s c ≡ step_calls t c
unfolding step_calls
receive_calls_read s t (sends n e p) it h = absurd (cc)
receive_calls_read s t (receives n e p) it h = rw h.0 refl

-- The same for the notices, of which the queue hears all or none.
module _ (socket : ℕ) (stop : Bool) where
  next_notices_other :
      (room : ℕ) (x : Extract × Header)
      → only tells_send (next_notices (heard socket stop) room x) ≡ []
  unfolding only
  next_notices_other room (malformed, h) = ground arith
  next_notices_other room (incomplete, h) = refl
  next_notices_other room (complete, h) = ground arith

  next_notices_own :
      (room : ℕ) (x : Extract × Header)
      → only tells_receive (next_notices (heard socket stop) room x)
        ≡ next_notices (heard socket stop) room x
  unfolding only
  next_notices_own room (malformed, h) = ground arith
  next_notices_own room (incomplete, h) = refl
  next_notices_own room (complete, h) = ground arith

  abbrev pub notices_of : Session → Completion → List NetStatus
  notices_of s c = step_notices (heard socket stop) s c

  pub send_notices_own :
      (s : Session) (c : Completion)
      → is_send c ≡ true
      → only tells_send (notices_of s c) ≡ notices_of s c
  unfolding only step_notices
  send_notices_own s (sends n e p) it = ground arith
  send_notices_own s (receives n e p) it = absurd (cc)

  pub send_notices_other :
      (s : Session) (c : Completion) → is_send c ≡ false → only tells_send (notices_of s c) ≡ []
  unfolding step_notices
  send_notices_other s (sends n e p) it = absurd (cc)
  send_notices_other s (receives n e p) it = next_notices_other s.io_recv_buf_len _

  pub receive_notices_own :
      (s : Session) (c : Completion)
      → is_receive c ≡ true
      → only tells_receive (notices_of s c) ≡ notices_of s c
  unfolding step_notices
  receive_notices_own s (sends n e p) it = absurd (cc)
  receive_notices_own s (receives n e p) it = next_notices_own s.io_recv_buf_len _

  pub receive_notices_other :
      (s : Session) (c : Completion)
      → is_receive c ≡ false
      → only tells_receive (notices_of s c) ≡ []
  unfolding only step_notices
  receive_notices_other s (sends n e p) it = ground arith
  receive_notices_other s (receives n e p) it = absurd (cc)

  pub send_notices_read :
      (s t : Session) (c : Completion)
      → is_send c ≡ true
      → SameSend s t
      → notices_of s c ≡ notices_of t c
  unfolding step_notices
  send_notices_read s t (sends n e p) it h = rw h refl
  send_notices_read s t (receives n e p) it h = absurd (cc)

  pub receive_notices_read :
      (s t : Session) (c : Completion)
      → is_receive c ≡ true
      → SameRecv s t
      → notices_of s c ≡ notices_of t c
  unfolding step_notices
  receive_notices_read s t (sends n e p) it h = absurd (cc)
  receive_notices_read s t (receives n e p) it h = rw (h.0, h.1) refl
