-- ===== src/Session/Stream/Outcome.antt =====
-- One call of `recv_package` on a stream of packages.
use libiocp.Base.{
  ℕ, suc, ◌+◌, ◌≤◌, ◌≡◌, refl, ap, ◌∙◌, ◌≢◌, ◌⊎◌, inl, inr, true, false, List, [], ◌∷◌, ◌++◌, arith,
  length, take, length-append, dec_le, ℤ, split_prefix, append_empty, take-write,
}
use libiocp.Iobuf.{Iobuf, trail_move, head_move}
use libiocp.Iobuf.Valid.{IsValid}
use libiocp.Iobuf.Contents.{contents}
use libiocp.Frame.{Header, header_size}
use libiocp.Frame.Layout.{length-packet}
use libiocp.Package.{Package, NetStatus}
use libiocp.Queue.{put}
use libiocp.Session.State.{World, recv_finished, recv_failed, notify, init_package}
use libiocp.Session.Io.{
  IoResult, Extract, malformed, incomplete, complete, recv_extract_package, take_package,
  recv_parsed, recv_package,
}
use libiocp.Session.Extract.{parse, recv_extract_package_lem, parse_prefix}
use libiocp.Session.Deliver.{Holds, Holds-complete, deliver, handed}
use libiocp.Session.Arrival.{Started, waits_recv}
use libiocp.Session.Reader.{Message, frame, wire, Reader, observe}
use libiocp.Session.Stream.{Fit, Short, Reads}

pub size-trail_move : (b : Iobuf) (n : ℕ) → (trail_move b n).size ≡ b.size
unfolding trail_move
size-trail_move b n = ground arith

size-head_move : (b : Iobuf) (n : ℕ) → (head_move b n).size ≡ b.size
unfolding head_move
size-head_move b n = ground arith

size-taken :
    (w : World) (b : Iobuf) (io : IoResult) (x : Extract × Header)
    → x.0 ≡ complete
    → (recv_parsed w b io x).0.session.recv_buf.size ≡ b.size
unfolding recv_parsed take_package recv_finished recv_failed
size-taken w b io (complete, head) e =
    ground (arith, size-head_move b header_size, size-head_move (head_move b header_size) head.size)
size-taken w b io (incomplete, head) e = cc
size-taken w b io (malformed, head) e = cc

recv_package_parsed :
    (w : World) (trans : ℕ) (io : IoResult)
    → let b = trail_move w.session.recv_buf trans in
      recv_package w trans io ≡ recv_parsed w b io (recv_extract_package b)
unfolding recv_package
recv_package_parsed w trans io = refl

-- What `deliver` leaves behind.
record Handed (w v : World) (bytes : List ℕ) (rest : Iobuf) : Type 0 where
  buffer : v.session.recv_buf ≡ rest
  stop : v.queue.stop ≡ w.queue.stop
  one_more : length v.queue.items ≡ suc (length w.queue.items)
  socket : v.session.socket ≡ w.session.socket
  user : take v.session.pack_size v.session.io_recv_buf ≡ bytes

handed-Handed :
    (w : World) (rest : Iobuf) (bytes : List ℕ)
    → w.session.socket ≢ 0
    → w.queue.stop ≡ false
    → Handed w (handed w rest bytes) bytes rest
unfolding recv_finished notify init_package put
handed-Handed w rest bytes h runs = record {
  buffer = ground arith;
  stop = ground arith;
  one_more = ground (arith, length-append w.queue.items (notice ∷ []));
  socket = ground arith;
  user = ground (arith, take-write bytes w.session.io_recv_buf);
}
  where
    notice : Package
    notice = record {
      status = NetStatus.recv_finished;
      session = w.session.id;
      pack_size = length bytes;
      err = 0;
    }

-- A session about to run `recv_package` on `b`, the buffer with all that has arrived.
pub record Ready (size cap : ℕ) (w : World) (b : Iobuf) (todo : List Message) (future : List ℕ)
    : Type 0 where
  pub valid : IsValid b
  pub sized : b.size ≡ size
  pub runs : w.queue.stop ≡ false
  pub open_socket : w.session.socket ≢ 0
  pub fit : Fit size cap todo
  pub stream : contents b ++ future ≡ wire todo
  pub lent : cap ≤ w.session.io_recv_buf_len

module _ {size cap : ℕ} (w : World) (trans : ℕ) {todo : List Message} {future : List ℕ}
    (a : Ready size cap w (trail_move w.session.recv_buf trans) todo future) (io : IoResult)
    (started : Started io) (got : List (List ℕ)) (before : World)
    (quiet : before.queue ≡ w.queue) where
  abbrev pub b : Iobuf
  b = trail_move w.session.recv_buf trans

  abbrev pub after : World
  after = (recv_package w trans io).0

  -- What is there is not yet a package.
  stays :
      (recv_extract_package b).0 ≡ incomplete
      → Short todo (contents b)
      → (observe before after got ≡ record { world = after; reading = true; got = got })
        × Reads size cap (record { world = after; reading = true; got = got }) todo future
  stays e short =
      let (same, moved, op) = waits_recv w trans io started e in
      (
        rw (same.queue, quiet) (ground arith),
        record {
          valid = rw moved a.valid;
          sized = rw moved a.sized;
          runs = rw same.queue a.runs;
          open_socket = rw same.socket a.open_socket;
          fit = a.fit;
          stream = rw moved a.stream;
          op = λ _. op;
          lent = λ _. rw same.user_len a.lent;
          short = λ _. rw moved short;
        },
      )

  -- The outcome of the call: a reader that reads on, or one that has one message more.
  abbrev pub Outcome : Reader → Type 0
  Outcome r =
      ((r ≡ record { world = after; reading = true; got = got }) × Reads size cap r todo future)
      ⊎ ((m : Message) × (ms : List Message) × (todo ≡ m ∷ ms)
          × (r ≡ record { world = after; reading = false; got = got ++ m.bytes ∷ [] })
          × Reads size cap r ms future)

  takes :
      (m : Message) (ms : List Message) (tail : List ℕ)
      → todo ≡ m ∷ ms
      → Holds b m.pad1 m.pad2 m.bytes tail
      → length m.bytes ≤ cap
      → Fit size cap ms
      → tail ++ future ≡ wire ms
      → (observe before after got
          ≡ record { world = after; reading = false; got = got ++ m.bytes ∷ [] })
        × Reads size cap
            (record { world = after; reading = false; got = got ++ m.bytes ∷ [] })
            ms
            future
  takes m ms tail e h le fit back =
      let (rest, shown, valid, left) = deliver w trans io h (omega (arith, a.lent)) in
      let done = ap (λ (x : World × ℤ). x.0) shown in
      let f : Handed w after m.bytes rest =
        rw done (handed-Handed w rest m.bytes a.open_socket a.runs) in
      let sized =
        size-taken w b io (recv_extract_package b)
          (ap (λ (x : Extract × Header). x.0) (Holds-complete h)) in
      (
        rw (f.one_more, quiet, f.user) (ground arith),
        record {
          valid = rw f.buffer valid;
          sized =
              ap (λ (x : World × ℤ). x.0.session.recv_buf.size) (recv_package_parsed w trans io)
              ∙ sized
              ∙ a.sized;
          runs = f.stop ∙ a.runs;
          open_socket = rw f.socket a.open_socket;
          fit = fit;
          stream = rw (f.buffer, left) back;
          op = λ x. cc;
          lent = λ x. cc;
          short = λ x. cc;
        },
      )

pub outcome :
    {size cap : ℕ} (w : World) (trans : ℕ) (todo : List Message) {future : List ℕ}
    (a : Ready size cap w (trail_move w.session.recv_buf trans) todo future) (io : IoResult)
    (started : Started io) (got : List (List ℕ)) (before : World) (quiet : before.queue ≡ w.queue)
    → Outcome w trans a io started got before quiet (observe before (recv_package w trans io).0 got)
unfolding parse
outcome w trans [] a io started got before quiet =
    let b = trail_move w.session.recv_buf trans in
    let none_there = append_empty (contents b) _ a.stream in
    let verdict : (recv_extract_package b).0 ≡ incomplete =
      rw (recv_extract_package_lem b a.valid, none_there) refl in
    let (e, r) = stays w trans a io started got before quiet verdict none_there in inl (e, rw e r)
outcome {size} {cap} w trans (m ∷ ms) {future} a io started got before quiet =
    elim (dec_le (header_size + length m.bytes) (length (contents b))) [
      | yes whole ↦
          let (tail, front, back) =
            split_prefix (contents b) future (frame m) (wire ms) a.stream
              (omega (arith, length-packet m.pad1 m.pad2 m.bytes)) in
          let h : Holds b m.pad1 m.pad2 m.bytes tail = record {
            valid = a.valid;
            held = front;
            positive = a.fit.0;
            small = a.fit.1;
          } in
          let (e, r) =
            takes w trans a io started got before quiet m ms tail refl h a.fit.3 a.fit.4 back in
          inr (m, ms, refl, e, rw e r)
      | no part ↦
          let verdict : (recv_extract_package b).0 ≡ incomplete =
            rw (recv_extract_package_lem b a.valid) (
              parse_prefix b.size m.pad1 m.pad2 m.bytes (wire ms) (contents b) future a.fit.0
                a.fit.1 (omega (arith, a.fit.2, a.sized)) a.stream (omega arith)) in
          let (e, r) = stays w trans a io started got before quiet verdict (omega arith) in
          inl (e, rw e r)
    ]
  where
    b : Iobuf
    b = trail_move w.session.recv_buf trans
