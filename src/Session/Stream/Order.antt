-- ===== src/Session/Stream/Order.antt =====
-- A stream of packages, cut anywhere, against the list of the messages.
use mathlib.Core.List.{append-nil, append_assoc}
use libiocp.Base.{
  ℕ, ◌≡◌, refl, sym, ap, ◌∙◌, inl, inr, true, List, [], ◌∷◌, ◌++◌, arith, length, length-append,
}
use libiocp.Iobuf.{Iobuf, trail_move}
use libiocp.Iobuf.Valid.{IsValid}
use libiocp.Iobuf.Contents.{contents}
use libiocp.Iobuf.Fill.{contents-Filled, Filled-IsValid}
use libiocp.Frame.Layout.{length-packet}
use libiocp.Session.State.{World}
use libiocp.Session.Io.{IoResult, recv_package}
use libiocp.Session.Api.{recv}
use libiocp.Session.Arrival.{Started, land, process_recv}
use libiocp.Session.Reader.{
  Message, frame, wire, Reader, observe, ReadStep, arrives, asks, ReadSteps, none_yet, and_then,
}
use libiocp.Session.Stream.{Reads}
use libiocp.Session.Stream.Outcome.{Ready, outcome, size-trail_move}

-- The messages as the application is to see them.
abbrev pub bodies : List Message → List (List ℕ)
bodies [] = []
bodies (m ∷ ms) = m.bytes ∷ bodies ms

-- The reader goes on with the rest of the messages, and none is lost, made up or out of order.
pub record Goes (size cap : ℕ) (before after : Reader) (todo : List Message) (future : List ℕ)
    : Type 0 where
  pub left : List Message
  pub reads : Reads size cap after left future
  pub kept : after.got ++ bodies left ≡ before.got ++ bodies todo

outcome-Goes :
    {size cap : ℕ} (r : Reader) (w : World) (trans : ℕ) (todo : List Message) {future : List ℕ}
    (a : Ready size cap w (trail_move w.session.recv_buf trans) todo future) (io : IoResult)
    (started : Started io) (quiet : r.world.queue ≡ w.queue)
    → Goes size cap r (observe r.world (recv_package w trans io).0 r.got) todo future
outcome-Goes r w trans todo a io started quiet =
    elim (outcome w trans todo a io started r.got r.world quiet) [
      | inl (e, reads) ↦ record {
        left = todo;
        reads = reads;
        kept = ap (λ (t : Reader). t.got ++ bodies todo) e;
      }
      | inr (m, ms, e, shown, reads) ↦ record {
        left = ms;
        reads = reads;
        kept =
            ap (λ (t : Reader). t.got ++ bodies ms) shown
            ∙ append_assoc r.got (m.bytes ∷ []) (bodies ms)
            ∙ ap (λ x. r.got ++ bodies x) (sym e);
      }
    ]

trail_move_none : (b : Iobuf) → IsValid b → trail_move b 0 ≡ b
unfolding trail_move
trail_move_none b v = ground (arith, v.trail_in)

ReadStep-Goes :
    {size cap : ℕ} {r : Reader} {ys : List ℕ} {t : Reader} {future : List ℕ} (todo : List Message)
    → ReadStep cap r ys t
    → Reads size cap r todo (ys ++ future)
    → Goes size cap r t todo future
unfolding recv
ReadStep-Goes {r = r} {future = future} todo (arrives chunk mem io err reading pos f room started)
      a =
    let buf = r.world.session.recv_buf in
    let held = contents-Filled buf chunk a.valid mem f room in
    rw (process_recv (land r.world mem) (length chunk) err io pos (a.op reading)) (
      outcome-Goes r (land r.world mem) (length chunk) todo
        (record {
          valid = Filled-IsValid buf chunk mem a.valid f (omega arith);
          sized = size-trail_move (land r.world mem).session.recv_buf (length chunk) ∙ a.sized;
          runs = a.runs;
          open_socket = a.open_socket;
          fit = a.fit;
          stream =
              ap (λ xs. xs ++ future) held ∙ append_assoc (contents buf) chunk future ∙ a.stream;
          lent = a.lent reading;
        })
        io started refl)
ReadStep-Goes {r = r} todo (asks user len io idle le started) a =
    let same = trail_move_none r.world.session.recv_buf a.valid in
    outcome-Goes r
      (record (r.world) {
        session = record (r.world.session) { io_recv_buf = user; io_recv_buf_len = len };
      })
      0 todo
      (record {
        valid = rw same a.valid;
        sized = rw same a.sized;
        runs = a.runs;
        open_socket = a.open_socket;
        fit = a.fit;
        stream = rw same a.stream;
        lent = le;
      })
      io started refl

ReadSteps-Goes :
    {size cap : ℕ} {r : Reader} {zs : List ℕ} {t : Reader} {future : List ℕ} (todo : List Message)
    → ReadSteps cap r zs t
    → Reads size cap r todo (zs ++ future)
    → Goes size cap r t todo future
ReadSteps-Goes {size} {cap} {r = r} {future = future} todo (none_yet e) a = record {
  left = todo;
  reads = rw (← ap (λ xs. xs ++ future) e) a;
  kept = refl;
}
ReadSteps-Goes {future = future} todo (and_then {xs} {ys} run st e) a =
    let g = ReadSteps-Goes todo run (rw (← append_assoc xs ys future) (rw (← e) a)) in
    let h = ReadStep-Goes g.left st g.reads in
    record { left = h.left; reads = h.reads; kept = h.kept ∙ g.kept }

-- A receiver that still awaits a package once all bytes have come has no message left to come.
all_read :
    (size cap : ℕ) (r : Reader) (left : List Message)
    → r.reading ≡ true
    → Reads size cap r left []
    → left ≡ []
all_read size cap r [] reading a = refl
all_read size cap r (m ∷ ms) reading a = absurd (
    omega (
      arith,
      a.short reading,
      ap length a.stream,
      length-append (contents r.world.session.recv_buf) [],
      length-append (frame m) (wire ms),
      length-packet m.pad1 m.pad2 m.bytes,
    ))

-- The refinement of a byte stream to a queue of messages: however the bytes of the messages are cut
-- into transfers, and whenever the application calls `recv`, what it has been handed is always the
-- first of the messages, whole and in order, and the receiver stays ready for the others; and once
-- all bytes have come and it awaits a package again, it has been handed all messages.
pub stream_order :
    {size cap : ℕ} (r t : Reader) (msgs : List Message) (arrived future : List ℕ)
    → Reads size cap r msgs (arrived ++ future)
    → r.got ≡ []
    → ReadSteps cap r arrived t
    → (left : List Message) × (bodies msgs ≡ t.got ++ bodies left)
      × Reads size cap t left future
      × (future ≡ [] → t.reading ≡ true → t.got ≡ bodies msgs)
stream_order {size} {cap} r t msgs arrived future a fresh run =
    let g = ReadSteps-Goes msgs run a in
    let kept : t.got ++ bodies g.left ≡ bodies msgs = g.kept ∙ ap (λ xs. xs ++ bodies msgs) fresh in
    (
      g.left,
      sym kept,
      g.reads,
      λ e reading.
          let none_left = all_read size cap t g.left reading (rw (← e) g.reads) in
          sym (append-nil t.got) ∙ ap (λ xs. t.got ++ bodies xs) (sym none_left) ∙ kept,
    )
