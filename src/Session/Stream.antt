-- ===== src/Session/Stream.antt =====
-- What holds of a reader in the middle of a stream of packages.
pub mod Outcome
pub mod Order
mod Tests
use mathlib.Core.List.{append-nil, append_assoc}
use libiocp.Base.{
  ℕ, zero, suc, ◌+◌, ◌-◌, ◌^◌, ◌≤◌, ◌<◌, ◌≡◌, refl, sym, ap, ◌∙◌, ◌≢◌, ◌⊎◌, inl, inr, Bool, true,
  false, List, [], ◌∷◌, ◌++◌, ltb, if◌then◌else◌, arith, length, take, drop, write, length-append,
  dec_le, ℤ, one, map,
}
use libiocp.Iobuf.{Iobuf, length_used, trail_move, head_move, get_unused_bufs}
use libiocp.Iobuf.Valid.{IsValid, length_used-lt}
use libiocp.Iobuf.Contents.{contents, length-contents}
use libiocp.Iobuf.Fill.{Filled, contents-Filled, Filled-IsValid}
use libiocp.Frame.{Header, header_size}
use libiocp.Frame.Layout.{packet, length-packet}
use libiocp.Package.{Package, NetStatus}
use libiocp.Queue.{Queue, put}
use libiocp.Session.State.{
  Session, World, io_recv, recv_finished, recv_failed, notify, init_package, protocol_error,
}
use libiocp.Session.Io.{
  IoResult, Extract, malformed, incomplete, complete, recv_extract_package, receive, take_package,
  recv_parsed, recv_package, process_iocp, recv_olp,
}
use libiocp.Session.Api.{recv}
use libiocp.Session.Extract.{parse, recv_extract_package_lem, parse_prefix}
use libiocp.Session.Deliver.{Holds, Holds-complete, deliver, handed}
use libiocp.Session.Arrival.{Started, Same, waits_recv, land, process_recv}
use libiocp.Session.Reader.{
  Message, frame, wire, Reader, observe, ReadStep, arrives, asks, ReadSteps, none_yet, and_then,
}

-- What the messages must be for a receiver whose buffer has `size` bytes and whose application
-- lends `cap`.
abbrev pub Fit : (size cap : ℕ) → List Message → Type 0
Fit size cap [] = Unit {0}
Fit size cap (m ∷ ms) =
    (0 < length m.bytes)
    × (length m.bytes < 2 ^ 31)
    × (header_size + length m.bytes < size)
    × (length m.bytes ≤ cap)
    × Fit size cap ms

-- A receiver holds less than the first of the messages that are to come.
abbrev pub Short : List Message → List ℕ → Type 0
Short [] xs = xs ≡ []
Short (m ∷ ms) xs = length xs < header_size + length m.bytes

-- `todo` are the messages that are not handed over, and `future` the bytes that are on their way.
pub record Reads (size cap : ℕ) (r : Reader) (todo : List Message) (future : List ℕ) : Type 0 where
  pub valid : IsValid r.world.session.recv_buf
  pub sized : r.world.session.recv_buf.size ≡ size
  pub runs : r.world.queue.stop ≡ false
  pub open_socket : r.world.session.socket ≢ 0
  pub fit : Fit size cap todo
  pub stream : contents r.world.session.recv_buf ++ future ≡ wire todo
  pub op : r.reading ≡ true → r.world.session.recv_op ≡ io_recv
  pub lent : r.reading ≡ true → cap ≤ r.world.session.io_recv_buf_len
  pub short : r.reading ≡ true → Short todo (contents r.world.session.recv_buf)
