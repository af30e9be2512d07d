-- ===== src/Session/Arrival.antt =====
-- Completions of WSARecv one after another, and what a session that waits for more keeps.
use libiocp.Base.{ℕ, ◌+◌, ◌^◌, ◌≤◌, ◌<◌, ◌≡◌, ◌≢◌, ◌⊎◌, List, [], ◌∷◌, ◌++◌, arith, length, write}
use libiocp.Iobuf.{Iobuf, trail_move, get_unused_bufs}
use libiocp.Iobuf.Valid.{IsValid}
use libiocp.Iobuf.Contents.{contents}
use libiocp.Iobuf.Fill.{Filled}
use libiocp.Frame.{Header, header_size}
use libiocp.Package.{NetStatus}
use libiocp.Queue.{put}
use libiocp.Session.State.{World, io_recv}
use libiocp.Session.Io.{
  IoResult, completed, failed, wsa_io_pending, Extract, malformed, incomplete, complete,
  recv_extract_package, receive, recv_parsed, recv_package, process_iocp, recv_olp,
}

-- WSARecv has started the transfer.
abbrev pub Started : IoResult → Type 0
Started io = (io ≡ completed) ⊎ (io ≡ failed wsa_io_pending)

-- What stays as it was while a session waits for the rest of a package.
pub record Same (w v : World) : Type 0 where
  pub queue : v.queue ≡ w.queue
  pub sessions : v.sessions ≡ w.sessions
  pub id : v.session.id ≡ w.session.id
  pub socket : v.session.socket ≡ w.session.socket
  pub user : v.session.io_recv_buf ≡ w.session.io_recv_buf
  pub user_len : v.session.io_recv_buf_len ≡ w.session.io_recv_buf_len
  pub send_buf : v.session.send_buf ≡ w.session.send_buf

receive-Same :
    (w : World) (io : IoResult)
    → Started io
    → Same w (receive w io).0 × ((receive w io).0.session.recv_buf ≡ w.session.recv_buf)
unfolding receive
receive-Same w io s = ground arith

parsed_waits :
    (w : World) (b : Iobuf) (io : IoResult) (x : Extract × Header)
    → Started io
    → x.0 ≡ incomplete
    → Same w (recv_parsed w b io x).0
      × ((recv_parsed w b io x).0.session.recv_buf ≡ b)
      × ((recv_parsed w b io x).0.session.recv_op ≡ io_recv)
unfolding recv_parsed receive
parsed_waits w b io (incomplete, head) s e = ground arith
parsed_waits w b io (malformed, head) s e = cc
parsed_waits w b io (complete, head) s e = cc

pub waits_recv :
    (w : World) (trans : ℕ) (io : IoResult)
    → Started io
    → (recv_extract_package (trail_move w.session.recv_buf trans)).0 ≡ incomplete
    → Same w (recv_package w trans io).0
      × ((recv_package w trans io).0.session.recv_buf ≡ trail_move w.session.recv_buf trans)
      × ((recv_package w trans io).0.session.recv_op ≡ io_recv)
unfolding recv_package
waits_recv w trans io s e =
    let b = trail_move w.session.recv_buf trans in parsed_waits w b io (recv_extract_package b) s e

-- WSARecv has put bytes into the storage of the receive buffer.
abbrev pub land : World → List ℕ → World
land w mem = record w {
  session = record (w.session) { recv_buf = record (w.session.recv_buf) { buf = mem } };
}

-- The completions of the transfers by which `chunks` arrive one after another lead from `w` to `v`:
-- each has some bytes, which WSARecv has put into the blocks that it was given.
abbrev pub Arrive : World → List (List ℕ) → World → Type 0
Arrive w [] v = v ≡ w
Arrive w (chunk ∷ chunks) v =
    (mem : List ℕ) × (io : IoResult) × (err : ℕ) × (0 < length chunk)
    × Filled (get_unused_bufs w.session.recv_buf) chunk w.session.recv_buf.buf mem
    × Started io
    × Arrive (process_iocp (land w mem) (length chunk) recv_olp err io) chunks v

abbrev pub flatten : List (List ℕ) → List ℕ
flatten [] = []
flatten (x ∷ xs) = x ++ flatten xs

-- The user has the bytes and one notice of them; the buffer has what follows.
pub record Delivered (w v : World) (bytes rest : List ℕ) : Type 0 where
  pub user : v.session.io_recv_buf ≡ write 0 bytes w.session.io_recv_buf
  pub notice :
      v.queue
      ≡ (put w.queue (record {
        status = NetStatus.recv_finished;
        session = w.session.id;
        pack_size = length bytes;
        err = 0;
      })).0
  pub valid : IsValid v.session.recv_buf
  pub left : contents v.session.recv_buf ≡ rest

pub process_recv :
    (w : World) (n err : ℕ) (io : IoResult)
    → 0 < n
    → w.session.recv_op ≡ io_recv
    → process_iocp w n recv_olp err io ≡ (recv_package w n io).0
unfolding process_iocp
process_recv w n err io pos op = ground arith

-- What is asked of a session and of a package on its way to it.
pub record Awaits (w : World) (p q : ℕ) (bytes rest : List ℕ) : Type 0 where
  pub valid : IsValid w.session.recv_buf
  pub op : w.session.recv_op ≡ io_recv
  pub open_socket : w.session.socket ≢ 0
  pub positive : 0 < length bytes
  pub small : length bytes < 2 ^ 31
  pub fits : length bytes ≤ w.session.io_recv_buf_len
  pub room : header_size + length bytes + length rest < w.session.recv_buf.size
