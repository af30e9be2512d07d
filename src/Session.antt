-- ===== src/Session.antt =====
-- inc/sglib/iocp/iocp_session_ioT.h and inc/sglib/iocp/iocp_session.h: one session.
pub mod State
pub mod Io
pub mod Api
pub mod Extract
pub mod Deliver
pub mod Arrival
pub mod Reader
pub mod Stream
pub mod Staging
pub mod Sending
pub mod Drain
pub mod Closing
pub mod Ending
pub mod Tests
pub mod Reassembly
pub mod Crossing
pub mod Commuting
pub mod Address
