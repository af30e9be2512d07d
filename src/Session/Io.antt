-- ===== src/Session/Io.antt =====
-- The transfers of a session: what it asks of WSARecv and WSASend, and what it does on completion.
use libiocp.Base.{
  ℕ, ◌-◌, ◌==◌, ltb, leb, ◌||◌, not, if◌then◌else◌, ℤ, minus_one, zero_int, one, slice, write,
}
use libiocp.Iobuf.{
  Iobuf, get_used_bufs, get_unused_bufs, head_move, trail_move, length_used, safe_copy, fast_copy,
}
use libiocp.Frame.{Header, magic, header_size, get_header, not_positive}
use libiocp.Session.State.{
  IoCondition, io_quit, io_send, io_recv, Session, wsa_recv, wsa_send, World, call, send_finished,
  recv_finished, recv_failed, protocol_error, send_error, recv_error, disconected,
}

-- What WSARecv or WSASend returns: 0, or SOCKET_ERROR with the code of WSAGetLastError.
pub data IoResult : Type 0 where
  completed : IoResult
  failed : ℕ → IoResult

abbrev pub wsa_io_pending : ℕ
wsa_io_pending = 997

-- `r == SOCKET_ERROR` in `receive`, with the code.
unfoldable pub receive_failed : World → ℕ → World × ℤ
receive_failed w code =
    let e = record w { session = record (w.session) { err = code } } in
    if code == wsa_io_pending then (e, zero_int) else (disconected (recv_error e code), minus_one)

unfoldable pub receive : World → IoResult → World × ℤ
unfolding receive_failed
receive w io =
    let u = get_unused_bufs w.session.recv_buf in
    let n : ℕ = (if u.len2 == 0 then 1 else 2) in
    let asked =
      call (record w { session = record (w.session) { recv_op = io_recv } }) (wsa_recv u n) in
    elim io [ completed ↦ (asked, zero_int) | failed code ↦ receive_failed asked code ]

unfoldable pub send_failed : World → ℕ → World × ℤ
send_failed w code =
    let e = record w { session = record (w.session) { err = code } } in
    if code == wsa_io_pending then (e, one) else (disconected (send_error e code), zero_int)

-- `send()`: one WSASend of the first used block.
unfoldable pub send_block : World → IoResult → World × ℤ
unfolding send_failed
send_block w io =
    let b = w.session.send_buf in
    let u = get_used_bufs b in
    let asked =
      call (record w { session = record (w.session) { send_op = io_send } })
        (wsa_send (slice u.buf1 u.len1 b.buf)) in
    elim io [ completed ↦ (asked, one) | failed code ↦ send_failed asked code ]

unfoldable pub send_package : World → ℕ → IoResult → World × ℤ
unfolding send_block
send_package w trans io =
    let sent = record w {
      session = record (w.session) { send_buf = head_move w.session.send_buf trans };
    } in
    if length_used sent.session.send_buf == 0 then (send_finished sent, one) else send_block sent io

-- The results -1, 0 and 1 of `recv_extract_package`.
pub data Extract : Type 0 where
  malformed incomplete complete : Extract

-- `length() - sizeof(header_t)` is at most 0 as an int exactly if `length()` is at most 8. The
-- header is zeroed first, so it is all 0 where nothing is copied.
unfoldable pub recv_extract_package : Iobuf → Extract × Header
recv_extract_package b =
    if leb (length_used b) header_size
    then (incomplete, record { magic = 0; size = 0 })
    else let h = get_header (safe_copy b header_size) in
      if not (h.magic == magic)
      then (malformed, h)
      else if not_positive h.size || leb b.size h.size
      then (malformed, h)
      else if ltb (length_used b - header_size) h.size
      then (incomplete, h)
      else (complete, h)

-- A whole package of `pack_size` bytes stands at the head.
unfoldable pub take_package : World → World × ℤ
take_package w =
    let s = w.session in
    if ltb s.io_recv_buf_len s.pack_size
    then (recv_failed w, zero_int)
    else let body = head_move s.recv_buf header_size in
      let out = write 0 (fast_copy body s.pack_size) s.io_recv_buf in
      let rest = head_move body s.pack_size in
      (recv_finished (record w { session = record s { recv_buf = rest; io_recv_buf = out } }), one)

-- `recv_package` from its call of `recv_extract_package` on; `b` is the buffer after the move.
unfoldable pub recv_parsed : World → Iobuf → IoResult → Extract × Header → World × ℤ
unfolding take_package receive
recv_parsed w b io (r, head) =
    let parsed = record w {
      session = record (w.session) { recv_buf = b; pack_size = head.size };
    } in
    elim r [
      | malformed ↦ (protocol_error parsed, minus_one)
      | incomplete ↦ ((receive parsed io).0, zero_int)
      | complete ↦ take_package parsed
    ]

unfoldable pub recv_package : World → ℕ → IoResult → World × ℤ
unfolding recv_parsed
recv_package w trans io =
    let b = trail_move w.session.recv_buf trans in recv_parsed w b io (recv_extract_package b)

-- The two OVERLAPPED_EX of a session.
pub data Olp : Type 0 where
  recv_olp send_olp : Olp

abbrev pub operation : Session → Olp → IoCondition
operation s recv_olp = s.recv_op
operation s send_olp = s.send_op

-- `trans == 0` in `process_iocp`: the peer has closed; `err` is the code of GetLastError.
unfoldable pub process_closed : World → ℕ → IoCondition → World
process_closed w err io_send =
    disconected (send_error (record w { session = record (w.session) { err = err } }) err)
process_closed w err io_recv =
    disconected (recv_error (record w { session = record (w.session) { err = err } }) err)
process_closed w err io_quit = disconected w

unfoldable pub process_done : World → ℕ → IoResult → IoCondition → World
unfolding send_package recv_package
process_done w trans io io_send = (send_package w trans io).0
process_done w trans io io_recv = (recv_package w trans io).0
process_done w trans io io_quit = disconected w

-- A completion of `trans` bytes, handled by one worker from start to end; `io` is what the one system
-- call that may follow returns. The session has no lock: this is what workers do to it if its
-- completions are handled one by one, as the comment of `disconected` asks.
unfoldable pub process_iocp : World → ℕ → Olp → ℕ → IoResult → World
unfolding process_closed process_done
process_iocp w trans olp err io =
    if trans == 0
    then process_closed w err (operation w.session olp)
    else process_done w trans io (operation w.session olp)
