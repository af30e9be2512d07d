-- ===== src/Session/Api.antt =====
-- What an application calls on a session.
use libiocp.Base.{
  ℕ, ◌+◌, ◌^◌, Bool, true, false, ltb, Option, none, some, List, [], ◌==◌, if◌then◌else◌, ℤ,
  minus_one, length, write,
}
use libiocp.Iobuf.{Iobuf, init, trail_move, detect_add, reset}
use libiocp.Frame.{header_size, put_header}
use libiocp.Session.State.{io_quit, Session, post_status, World, call, connected}
use libiocp.Session.Io.{IoResult, send_block, recv_package}

-- The constructor of session_ioT, over the two blocks that the buffers allocate.
unfoldable pub create_io :
    Session → (socket : ℕ) (send_mem recv_mem : List ℕ) (send_size recv_size : ℕ) → Session
create_io memory socket send_mem recv_mem send_size recv_size = record memory {
  socket = socket;
  io_send_buf = 0;
  io_send_buf_len = 0;
  io_recv_buf = [];
  io_recv_buf_len = 0;
  recv_buf = init recv_mem recv_size;
  send_buf = init send_mem send_size;
}

-- The constructor of iocp_session. `memory` has the fields that the two leave unset.
unfoldable pub create :
    Session → (id socket : ℕ) (send_mem recv_mem : List ℕ) (send_size recv_size : ℕ) → Session
unfolding create_io
create memory id socket send_mem recv_mem send_size recv_size =
    record (create_io memory socket send_mem recv_mem send_size recv_size) {
      id = id;
      session_data = 0;
      debug_disconnected = false;
    }

unfoldable pub io_send_buf_size : Session → ℕ
io_send_buf_size s = s.send_buf.size

unfoldable pub io_recv_buf_size : Session → ℕ
io_recv_buf_size s = s.recv_buf.size

unfoldable pub get_session_data : Session → ℕ
get_session_data s = s.session_data

unfoldable pub get_id : Session → ℕ
get_id s = s.id

unfoldable pub send_init : Session → Session
send_init s =
    let b = reset s.send_buf in
    record s { send_buf = b; io_send_buf = b.head; io_send_buf_len = b.size }

-- `detect_add (total)`, where `total` is an int: from 2 ^ 31 on it is negative, and the test passes. What
-- `memcpy` and `trail_move` then do to memory behind the buffer is not defined, and not modelled.
abbrev accepts : Iobuf → ℕ → Bool
accepts b total = let fits = detect_add b total in if ltb total (2 ^ 31) then fits else true

-- `none` stands for the result false; the buffer is then as it was.
unfoldable pub send_add : Session → List ℕ → Option Session
send_add s bytes =
    let b = s.send_buf in
    let total = length bytes + header_size in
    let mem = write (b.trail + header_size) bytes (put_header b.trail (length bytes) b.buf) in
    if accepts b total
    then some (record s { send_buf = trail_move (record b { buf = mem }) total })
    else none

unfoldable pub send_packages : World → IoResult → World × ℤ
send_packages = send_block

-- `send (data, len)`.
unfoldable pub send : World → List ℕ → IoResult → World × ℤ
unfolding send_packages
send w bytes io =
    let w1 = record w { session = send_init w.session } in
    elim (send_add w1.session bytes) [
      | none ↦ (w1, minus_one)
      | some s ↦ send_packages (record w1 { session = s }) io
    ]

-- `send (data1, len1, data2, len2)`.
unfoldable pub send_two : World → List ℕ → List ℕ → IoResult → World × ℤ
unfolding send_packages
send_two w bytes1 bytes2 io =
    let s = send_init w.session in
    let b = s.send_buf in
    let total = length bytes1 + length bytes2 + header_size in
    let mem = write (b.trail + header_size + length bytes1) bytes2 (
      write (b.trail + header_size) bytes1
        (put_header b.trail (length bytes1 + length bytes2) b.buf)) in
    if accepts b total
    then send_packages
        (record w { session = record s { send_buf = trail_move (record b { buf = mem }) total } })
        io
    else (record w { session = s }, minus_one)

-- `recv (data, len)`: `user` is the memory at `data`.
unfoldable pub recv : World → List ℕ → ℕ → IoResult → World × ℤ
recv w user len io =
    recv_package
      (record w { session = record (w.session) { io_recv_buf = user; io_recv_buf_len = len } }) 0 io

unfoldable pub quit : World → World
quit w =
    call (record w { session = record (w.session) { recv_op = io_quit } })
      (post_status w.session.id)

unfoldable pub set_session_data : Session → ℕ → Session
set_session_data s p = record s { session_data = p }

-- `handle` is what CreateIoCompletionPort returns, 0 for NULL, and `code` that of GetLastError.
unfoldable pub join_iocp : World → ℕ → ℕ → World × ℕ
join_iocp w handle code =
    let j = record w { session = record (w.session) { iocp = handle } } in
    if handle == 0
    then (record j { session = record (j.session) { iocp_err = code } }, 0)
    else (connected j, 1)
