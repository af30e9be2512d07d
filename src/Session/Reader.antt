-- ===== src/Session/Reader.antt =====
-- A session and the application that reads from it: a completion of WSARecv while a package is
-- awaited, and `recv` once a package has been handed over.
use libiocp.Base.{
  ℕ, ◌+◌, ◌≤◌, ◌<◌, ◌≡◌, Bool, true, false, List, [], ◌∷◌, ◌++◌, ltb, if◌then◌else◌, length, take,
}
use libiocp.Iobuf.{length_used, get_unused_bufs}
use libiocp.Iobuf.Fill.{Filled}
use libiocp.Frame.Layout.{packet}
use libiocp.Session.State.{World}
use libiocp.Session.Io.{IoResult, process_iocp, recv_olp}
use libiocp.Session.Api.{recv}
use libiocp.Session.Arrival.{Started, land}

-- A message on the wire, with the two bytes of padding that its header happens to have.
pub record Message : Type 0 where
  pub pad1 : ℕ
  pub pad2 : ℕ
  pub bytes : List ℕ

abbrev pub frame : Message → List ℕ
frame m = packet m.pad1 m.pad2 m.bytes

-- The messages as bytes, one package after the other.
abbrev pub wire : List Message → List ℕ
wire [] = []
wire (m ∷ ms) = frame m ++ wire ms

-- `reading` while a package is awaited; `got` are the messages that were handed over.
pub record Reader : Type 0 where
  pub world : World
  pub reading : Bool
  pub got : List (List ℕ)

-- What the application makes of a call: a notice on the queue means that a package has come.
abbrev pub observe : World → World → List (List ℕ) → Reader
observe w v got =
    if ltb (length w.queue.items) (length v.queue.items)
    then record {
      world = v;
      reading = false;
      got = got ++ take v.session.pack_size v.session.io_recv_buf ∷ [];
    }
    else record { world = v; reading = true; got = got }

-- A step of a reader that lends at least `cap` bytes to each `recv`, with the bytes that arrive.
-- A transfer never fills the receive buffer to the last byte.
pub data ReadStep (cap : ℕ) (r : Reader) : List ℕ → Reader → Type 0 where
  arrives :
      (chunk mem : List ℕ) (io : IoResult) (err : ℕ)
      → r.reading ≡ true
      → 0 < length chunk
      → Filled (get_unused_bufs r.world.session.recv_buf) chunk r.world.session.recv_buf.buf mem
      → length chunk + length_used r.world.session.recv_buf < r.world.session.recv_buf.size
      → Started io
      → ReadStep cap r chunk
          (observe r.world (process_iocp (land r.world mem) (length chunk) recv_olp err io) r.got)
  asks :
      (user : List ℕ) (len : ℕ) (io : IoResult)
      → r.reading ≡ false
      → cap ≤ len
      → Started io
      → ReadStep cap r [] (observe r.world (recv r.world user len io).0 r.got)

pub data ReadSteps (cap : ℕ) (r : Reader) : List ℕ → Reader → Type 0 where
  none_yet : {xs : List ℕ} → xs ≡ [] → ReadSteps cap r xs r
  and_then :
      {xs ys zs : List ℕ} {s t : Reader}
      → ReadSteps cap r xs s
      → ReadStep cap s ys t
      → zs ≡ xs ++ ys
      → ReadSteps cap r zs t
