-- ===== src/Session/Closing.antt =====
-- What the completions of a session whose socket is closed put on the message queue.
use libiocp.Base.{ℕ, ◌≡◌, refl, ◌⊎◌, inl, inr, ◌==◌, if◌then◌else◌, arith, slice, Bool-cases}
use libiocp.Iobuf.{Iobuf, length_used, head_move, trail_move, get_used_bufs, get_unused_bufs}
use libiocp.Frame.{Header}
use libiocp.Package.{Package, NetStatus}
use libiocp.Queue.{put}
use libiocp.Session.State.{
  IoCondition, io_quit, io_send, io_recv, Session, World, wsa_send, wsa_recv, call, send_finished,
  recv_finished, recv_failed, protocol_error, send_error, recv_error, disconected,
}
use libiocp.Session.Io.{
  IoResult, completed, failed, wsa_io_pending, receive, receive_failed, send_failed, send_block,
  send_package, take_package, recv_parsed, recv_package, recv_extract_package, Extract, malformed,
  incomplete, complete, process_iocp, process_closed, process_done, operation, Olp,
}

abbrev pub ending : Session → Package
ending s = record {
  status = NetStatus.disconnected;
  session = s.id;
  pack_size = s.pack_size;
  err = 0;
}

-- No notice, or one that the session has ended.
abbrev pub OnlyEnding : World → World → Type 0
OnlyEnding w v =
    (v.session.socket ≡ 0)
    × (v.session.id ≡ w.session.id)
    × ((v.queue ≡ w.queue)
        ⊎ ((p : Package) × (p.status ≡ NetStatus.disconnected)
            × (p.session ≡ w.session.id)
            × (v.queue ≡ (put w.queue p).0)))

-- `disconected` from a state that differs from `w` in what the notices do not show.
disconected-OnlyEnding :
    (w u : World)
    → u.session.socket ≡ 0
    → u.session.id ≡ w.session.id
    → u.queue ≡ w.queue
    → OnlyEnding w (disconected u)
unfolding disconected
disconected-OnlyEnding w u c i q =
    (ground arith, ground arith, inr (ending u.session, refl, i, ground arith))

send_failed-OnlyEnding :
    (w u : World) (code : ℕ)
    → u.session.socket ≡ 0
    → u.session.id ≡ w.session.id
    → u.queue ≡ w.queue
    → OnlyEnding w (send_failed u code).0
unfolding send_failed send_error
send_failed-OnlyEnding w u code c i q = elim (Bool-cases (code == wsa_io_pending)) [
  | inl pending ↦ (ground arith, ground arith, inl (ground arith))
  | inr other ↦
      let e = record u { session = record (u.session) { err = code } } in
      ground (arith, disconected-OnlyEnding w e c i q)
]

receive_failed-OnlyEnding :
    (w u : World) (code : ℕ)
    → u.session.socket ≡ 0
    → u.session.id ≡ w.session.id
    → u.queue ≡ w.queue
    → OnlyEnding w (receive_failed u code).0
unfolding receive_failed recv_error
receive_failed-OnlyEnding w u code c i q = elim (Bool-cases (code == wsa_io_pending)) [
  | inl pending ↦ (ground arith, ground arith, inl (ground arith))
  | inr other ↦
      let e = record u { session = record (u.session) { err = code } } in
      ground (arith, disconected-OnlyEnding w e c i q)
]

send_block-OnlyEnding :
    (w u : World) (io : IoResult)
    → u.session.socket ≡ 0
    → u.session.id ≡ w.session.id
    → u.queue ≡ w.queue
    → OnlyEnding w (send_block u io).0
unfolding send_block
send_block-OnlyEnding w u completed c i q = (c, i, inl q)
send_block-OnlyEnding w u (failed code) c i q =
    let b = u.session.send_buf in
    let f = get_used_bufs b in
    send_failed-OnlyEnding w
      (call (record u { session = record (u.session) { send_op = io_send } })
        (wsa_send (slice f.buf1 f.len1 b.buf)))
      code c i q

receive-OnlyEnding :
    (w u : World) (io : IoResult)
    → u.session.socket ≡ 0
    → u.session.id ≡ w.session.id
    → u.queue ≡ w.queue
    → OnlyEnding w (receive u io).0
unfolding receive
receive-OnlyEnding w u completed c i q = (c, i, inl q)
receive-OnlyEnding w u (failed code) c i q =
    let f = get_unused_bufs u.session.recv_buf in
    let n : ℕ = (if f.len2 == 0 then 1 else 2) in
    receive_failed-OnlyEnding w
      (call (record u { session = record (u.session) { recv_op = io_recv } }) (wsa_recv f n)) code c
      i q

send_package-OnlyEnding :
    (w : World) (n : ℕ) (io : IoResult)
    → w.session.socket ≡ 0
    → OnlyEnding w (send_package w n io).0
unfolding send_package send_finished
send_package-OnlyEnding w n io c =
    let sent = record w {
      session = record (w.session) { send_buf = head_move w.session.send_buf n };
    } in
    elim (Bool-cases (length_used sent.session.send_buf == 0)) [
      | inl over ↦ (ground arith, ground arith, inl (ground arith))
      | inr left ↦ ground (arith, send_block-OnlyEnding w sent io c refl refl)
    ]

recv_parsed-OnlyEnding :
    (w : World) (b : Iobuf) (io : IoResult) (x : Extract × Header)
    → w.session.socket ≡ 0
    → OnlyEnding w (recv_parsed w b io x).0
unfolding recv_parsed take_package protocol_error recv_failed recv_finished
recv_parsed-OnlyEnding w b io (malformed, head) c = (ground arith, ground arith, inl (ground arith))
recv_parsed-OnlyEnding w b io (incomplete, head) c =
    receive-OnlyEnding w
      (record w { session = record (w.session) { recv_buf = b; pack_size = head.size } }) io c refl
      refl
recv_parsed-OnlyEnding w b io (complete, head) c = (ground arith, ground arith, inl (ground arith))

process_closed-OnlyEnding :
    (w : World) (err : ℕ) (op : IoCondition)
    → w.session.socket ≡ 0
    → OnlyEnding w (process_closed w err op)
unfolding process_closed send_error recv_error
process_closed-OnlyEnding w err io_quit c = disconected-OnlyEnding w w c refl refl
process_closed-OnlyEnding w err io_send c =
    let e = record w { session = record (w.session) { err = err } } in
    ground (arith, disconected-OnlyEnding w e c refl refl)
process_closed-OnlyEnding w err io_recv c =
    let e = record w { session = record (w.session) { err = err } } in
    ground (arith, disconected-OnlyEnding w e c refl refl)

process_done-OnlyEnding :
    (w : World) (n : ℕ) (io : IoResult) (op : IoCondition)
    → w.session.socket ≡ 0
    → OnlyEnding w (process_done w n io op)
unfolding process_done recv_package
process_done-OnlyEnding w n io io_quit c = disconected-OnlyEnding w w c refl refl
process_done-OnlyEnding w n io io_send c = send_package-OnlyEnding w n io c
process_done-OnlyEnding w n io io_recv c =
    let b = trail_move w.session.recv_buf n in
    recv_parsed-OnlyEnding w b io (recv_extract_package b) c

pub process-OnlyEnding :
    (w : World) (n : ℕ) (olp : Olp) (err : ℕ) (io : IoResult)
    → w.session.socket ≡ 0
    → OnlyEnding w (process_iocp w n olp err io)
unfolding process_iocp
process-OnlyEnding w n olp err io c = elim (Bool-cases (n == 0)) [
  | inl none_moved ↦
      rw (process_iocp, none_moved) (process_closed-OnlyEnding w err (operation w.session olp) c)
  | inr some_moved ↦
      rw (process_iocp, some_moved) (process_done-OnlyEnding w n io (operation w.session olp) c)
]
