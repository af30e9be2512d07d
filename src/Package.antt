-- ===== src/Package.antt =====
-- inc/sglib/iocp/iocp_queue.h: the packages that sessions put on the message queue.
use libiocp.Base.{ℕ}

-- enum NET_status
pub data NetStatus : Type 0 where
  connected disconnected send_finished send_failed recv_finished recv_failed noop : NetStatus
  send_error recv_error protocol_error quit : NetStatus

-- package_t; a session pointer is the id of the session.
pub record Package : Type 0 where
  pub status : NetStatus
  pub session : ℕ
  pub pack_size : ℕ
  pub err : ℕ
