-- ===== src/Session/State.antt =====
-- The state of a session (class session_ioT with iocp_session), and the notices that it puts on the
-- message queue.
use libiocp.Base.{ℕ, Bool, true, List, [], ◌∷◌, ◌++◌, ◌==◌, if◌then◌else◌}
use libiocp.Iobuf.{Iobuf, Bufs}
use libiocp.Package.{NetStatus, Package}
use libiocp.Queue.{Queue, put}
use libiocp.Registry.{session_remove}

-- enum IO_CONDITION, the `operation` of an OVERLAPPED_EX.
pub data IoCondition : Type 0 where
  io_quit io_send io_recv : IoCondition

-- `socket` is 0 once the socket is closed. `io_recv_buf` is the user's memory at `_io_recv_buf`,
-- and `io_send_buf` an offset into the send buffer. `pack_size` is the bit pattern of the int.
-- `err` is the `_err` of session_ioT and `iocp_err` the one that iocp_session declares again.
pub record Session : Type 0 where
  pub id : ℕ
  pub socket : ℕ
  pub err : ℕ
  pub iocp : ℕ
  pub iocp_err : ℕ
  pub io_send_buf : ℕ
  pub io_send_buf_len : ℕ
  pub io_recv_buf : List ℕ
  pub io_recv_buf_len : ℕ
  pub pack_size : ℕ
  pub recv_buf : Iobuf
  pub send_buf : Iobuf
  pub recv_op : IoCondition
  pub send_op : IoCondition
  pub session_data : ℕ
  pub debug_disconnected : Bool

-- The calls of the system, with what they are given.
pub data SysCall : Type 0 where
  wsa_recv : Bufs → ℕ → SysCall
  wsa_send : List ℕ → SysCall
  close_handle : ℕ → SysCall
  post_status : ℕ → SysCall

-- A session with what it shares: the message queue, the vector of its boss, and the system, as the
-- calls made so far.
pub record World : Type 0 where
  pub session : Session
  pub queue : Queue Package
  pub sessions : List ℕ
  pub calls : List SysCall

abbrev pub call : World → SysCall → World
call w c = record w { calls = w.calls ++ c ∷ [] }

-- `shutdown` and `closesocket` on a socket that is open.
unfoldable pub close_socket : World → World
close_socket w =
    if w.session.socket == 0 then w else record (call w (close_handle w.session.socket)) {
      session = record (w.session) { socket = 0 };
    }

unfoldable pub init_package : Session → NetStatus → Package
init_package s status = record { status = status; session = s.id; pack_size = s.pack_size; err = 0 }

abbrev pub put_package : World → Package → World
put_package w p = record w { queue = (put w.queue p).0 }

-- The body that the notices share: nothing is put once the socket is closed.
unfoldable pub notify : World → NetStatus → ℕ → World
unfolding init_package
notify w status err =
    if w.session.socket == 0
    then w
    else put_package w (record (init_package w.session status) { err = err })

unfoldable pub connected : World → World
unfolding init_package
connected w = put_package w (init_package w.session NetStatus.connected)

unfoldable pub send_finished : World → World
unfolding notify
send_finished w = notify w NetStatus.send_finished 0

unfoldable pub recv_finished : World → World
unfolding notify
recv_finished w = notify w NetStatus.recv_finished 0

unfoldable pub recv_failed : World → World
unfolding notify
recv_failed w = notify w NetStatus.recv_failed 0

unfoldable pub protocol_error : World → World
unfolding notify
protocol_error w = notify w NetStatus.protocol_error 0

unfoldable pub send_error : World → ℕ → World
unfolding notify
send_error w err = notify w NetStatus.send_error err

unfoldable pub recv_error : World → ℕ → World
unfolding notify
recv_error w err = notify w NetStatus.recv_error err

unfoldable pub disconected : World → World
unfolding close_socket init_package
disconected w =
    let c = close_socket w in
    let p = put_package c (init_package c.session NetStatus.disconnected) in
    record p {
      sessions = (session_remove p.sessions p.session.id).0;
      session = record (p.session) { debug_disconnected = true };
    }
