-- ===== src/Session/Tests.antt =====
-- Sessions on small buffers.
use libiocp.Base.{
  ℕ, ◌≤◌, ◌≡◌, refl, ◌⊎◌, inl, inr, false, List, [], ◌∷◌, ◌++◌, arith, write, one, zero_int,
  minus_one,
}
use libiocp.Iobuf.{Iobuf, get_unused_bufs, trail_move, length_used}
use libiocp.Iobuf.Valid.{IsValid}
use libiocp.Iobuf.Contents.{contents}
use libiocp.Frame.{le16, le32}
use libiocp.Frame.Layout.{packet}
use libiocp.Package.{Package, NetStatus}
use libiocp.Queue.{Queue, put}
use libiocp.Registry.{session_remove}
use libiocp.Session.State.{Session, World, wsa_send, close_handle, io_send, io_recv, disconected}
use libiocp.Session.Io.{
  completed, failed, recv_extract_package, process_iocp, recv_package, recv_olp, send_olp,
  wsa_io_pending,
}
use libiocp.Session.Api.{send, send_two}
use libiocp.Session.Arrival.{land, Delivered, Awaits}
use libiocp.Session.Reassembly.{reassembly}
use libiocp.Session.Extract.{parse, recv_extract_package_lem}
use libiocp.Session.Deliver.{Holds, delivers, refuses}
use libiocp.Session.Sending.{Sends, send_lem, send_two_lem}
use libiocp.Session.Drain.{sent_notice, drain}
use libiocp.Session.Closing.{ending}
use libiocp.Session.Ending.{Completion, complete_all, put_all, AllEnding, peer_closed, ended_last}

abbrev pub storage : List ℕ
storage = 0 ∷ 0 ∷ 0 ∷ 0 ∷ 0 ∷ 0 ∷ 0 ∷ 0 ∷ 0 ∷ 0 ∷ 0 ∷ 0 ∷ 0 ∷ 0 ∷ 0 ∷ 0 ∷ []

abbrev pub buffer : Iobuf
buffer = record { buf = storage; size = 16; head = 0; trail = 0 }

-- The package of the bytes 5 and 6.
abbrev pub stored : List ℕ
stored = 0xfe ∷ 0xef ∷ 0 ∷ 0 ∷ 2 ∷ 0 ∷ 0 ∷ 0 ∷ 5 ∷ 6 ∷ 0 ∷ 0 ∷ 0 ∷ 0 ∷ 0 ∷ 0 ∷ []

abbrev pub full : Iobuf
full = record { buf = stored; size = 16; head = 0; trail = 10 }

abbrev pub session : Session
session = record {
  id = 3;
  socket = 44;
  err = 0;
  iocp = 1;
  iocp_err = 0;
  io_send_buf = 0;
  io_send_buf_len = 0;
  io_recv_buf = 9 ∷ 9 ∷ 9 ∷ [];
  io_recv_buf_len = 3;
  pack_size = 0;
  recv_buf = buffer;
  send_buf = buffer;
  recv_op = io_recv;
  send_op = io_send;
  session_data = 0;
  debug_disconnected = false;
}

abbrev queue : Queue Package
queue = record { count = 0; stop = false; items = []; not_empty = false }

abbrev pub world : World
world = record { session = session; queue = queue; sessions = 2 ∷ 3 ∷ []; calls = [] }

abbrev pub sending : World
sending = record world { session = record session { send_buf = full } }

abbrev pub receiving : World
receiving = record world { session = record session { recv_buf = full } }

pub buffer-IsValid : IsValid buffer
buffer-IsValid = omega arith

pub full-IsValid : IsValid full
full-IsValid = omega arith

contents-full : contents full ≡ packet 0 0 (5 ∷ 6 ∷ [])
unfolding length_used le16 le32
contents-full = refl

full-Holds : Holds (trail_move full 0) 0 0 (5 ∷ 6 ∷ []) []
unfolding trail_move length_used le16 le32
full-Holds = record {
  valid = omega arith;
  held = refl;
  positive = omega arith;
  small = omega arith;
}

pub awaits : Awaits world 0 0 (5 ∷ 6 ∷ []) []
awaits = record {
  valid = buffer-IsValid;
  op = refl;
  open_socket = λ e. omega arith;
  positive = omega arith;
  small = omega arith;
  fits = omega arith;
  room = omega arith;
}

abbrev pub first : List ℕ
first = 0xfe ∷ 0xef ∷ 0 ∷ []

abbrev pub second : List ℕ
second = 0 ∷ 2 ∷ 0 ∷ 0 ∷ 0 ∷ 5 ∷ 6 ∷ []

abbrev pub halfway : World
halfway =
    process_iocp (land world (write 0 [] (write 0 first storage))) 3 recv_olp 0
      (failed wsa_io_pending)

abbrev pub arrived : World
arrived =
    process_iocp (land halfway (write 0 [] (write 3 second halfway.session.recv_buf.buf))) 7
      recv_olp 0 completed

reassembly_example : Delivered world arrived (5 ∷ 6 ∷ []) []
unfolding le16 le32 length_used get_unused_bufs process_iocp write trail_move recv_extract_package
reassembly_example =
    reassembly world arrived (first ∷ []) second 0 0 (5 ∷ 6 ∷ []) [] awaits refl (omega arith) (
      _,
      failed wsa_io_pending,
      0,
      omega arith,
      (omega arith, refl),
      inr refl,
      (_, completed, 0, omega arith, (omega arith, refl), inl refl, refl),
    )

drain_example :
    let v = process_iocp (process_iocp sending 4 send_olp 0 completed) 6 send_olp 0 completed in
    (v.calls ≡ wsa_send (2 ∷ 0 ∷ 0 ∷ 0 ∷ 5 ∷ 6 ∷ []) ∷ [])
    × (v.queue ≡ (put queue (sent_notice sending)).0)
unfolding length_used le16 le32
drain_example =
    drain sending _ (packet 0 0 (5 ∷ 6 ∷ [])) (4 ∷ []) 6
      (record {
        staged = record { valid = full-IsValid; straight = omega arith };
        op = refl;
        open_socket = λ e. omega arith;
        held = refl;
      })
      refl (omega arith)
      (completed, 0, omega arith, inl refl, (completed, 0, omega arith, inl refl, refl))

send_lem_example :
    ((16 ≤ 10)
      × ((send world (5 ∷ 6 ∷ []) completed).1 ≡ minus_one)
      × ((send world (5 ∷ 6 ∷ []) completed).0.calls ≡ [])
      × ((send world (5 ∷ 6 ∷ []) completed).0.queue ≡ queue))
    ⊎ ((p : ℕ) × (q : ℕ) × ((send world (5 ∷ 6 ∷ []) completed).1 ≡ one)
        × ((send world (5 ∷ 6 ∷ []) completed).0.calls ≡ wsa_send (packet p q (5 ∷ 6 ∷ [])) ∷ [])
        × ((send world (5 ∷ 6 ∷ []) completed).0.queue ≡ queue)
        × Sends (send world (5 ∷ 6 ∷ []) completed).0 (packet p q (5 ∷ 6 ∷ [])))
send_lem_example =
    send_lem world (5 ∷ 6 ∷ []) completed buffer-IsValid (λ e. omega arith) (inl refl) (omega arith)

send_two_runs : send_two world (5 ∷ []) (6 ∷ []) completed ≡ send world (5 ∷ 6 ∷ []) completed
send_two_runs = send_two_lem world (5 ∷ []) (6 ∷ []) completed buffer-IsValid (omega arith)

delivers_example :
    let (v, result) = recv_package receiving 0 completed in
    (result ≡ one)
    × (v.queue
        ≡ (put receiving.queue (record {
          status = NetStatus.recv_finished;
          session = receiving.session.id;
          pack_size = 2;
          err = 0;
        })).0)
    × (v.calls ≡ receiving.calls)
    × (v.session.io_recv_buf ≡ write 0 (5 ∷ 6 ∷ []) receiving.session.io_recv_buf)
    × IsValid v.session.recv_buf
    × (contents v.session.recv_buf ≡ [])
delivers_example = delivers receiving 0 completed full-Holds (omega arith) (λ e. omega arith)

abbrev cramped : World
cramped = record receiving { session = record (receiving.session) { io_recv_buf_len = 1 } }

refuses_example :
    let (v, result) = recv_package cramped 0 completed in
    (result ≡ zero_int)
    × (v.queue
        ≡ (put cramped.queue (record {
          status = NetStatus.recv_failed;
          session = cramped.session.id;
          pack_size = 2;
          err = 0;
        })).0)
    × (v.calls ≡ cramped.calls)
    × (v.session.io_recv_buf ≡ cramped.session.io_recv_buf)
    × IsValid v.session.recv_buf
    × (contents v.session.recv_buf ≡ packet 0 0 (5 ∷ 6 ∷ []) ++ [])
refuses_example = refuses cramped 0 completed full-Holds (omega arith) (λ e. omega arith)

recv_extract_package_lem_example : recv_extract_package full ≡ parse 16 (contents full)
recv_extract_package_lem_example = recv_extract_package_lem full full-IsValid

-- A header that announces 12 bytes, for a buffer of 16.
abbrev announced : Iobuf
announced = record {
  buf = 0xfe ∷ 0xef ∷ 0 ∷ 0 ∷ 12 ∷ 0 ∷ 0 ∷ 0 ∷ 1 ∷ 1 ∷ 1 ∷ 1 ∷ 1 ∷ 1 ∷ 1 ∷ 0 ∷ [];
  size = 16;
  head = 0;
  trail = 15;
}

peer_closed_runs :
    let v = process_iocp world 0 recv_olp 64 completed in
    (v.queue
      ≡ (put
          (put queue (record (ending session) { status = NetStatus.recv_error; err = 64 })).0
          (ending session)).0)
    × (v.calls ≡ close_handle 44 ∷ [])
    × (v.session.socket ≡ 0)
    × (v.sessions ≡ 2 ∷ [])
unfolding session_remove
peer_closed_runs =
    peer_closed world recv_olp 64 completed NetStatus.recv_error (λ e. omega arith)
      (inl (refl, refl))

abbrev late : List Completion
late =
    record { trans = 0; olp = send_olp; err = 5; io = completed }
    ∷ record { trans = 4; olp = recv_olp; err = 0; io = failed 10054 }
    ∷ []

ended_last_example :
    (ps : List Package) × AllEnding 3 ps
    × ((complete_all (disconected world) late).queue ≡ put_all queue (ending session ∷ ps))
ended_last_example = ended_last world late
