-- ===== src/Session/Reassembly.antt =====
-- A package that arrives in pieces: the completions of WSARecv one after another.
use mathlib.Core.List.{append-nil, append_assoc}
use libiocp.Base.{
  ℕ, ◌+◌, ◌<◌, ◌≡◌, sym, ap, ◌∙◌, List, [], ◌∷◌, ◌++◌, arith, length, write, length-append, ℤ,
}
use libiocp.Iobuf.{Iobuf, length_used, trail_move, get_unused_bufs}
use libiocp.Iobuf.Valid.{IsValid}
use libiocp.Iobuf.Contents.{contents, length-contents}
use libiocp.Iobuf.Fill.{Filled, contents-Filled, Filled-IsValid}
use libiocp.Frame.{Header, header_size}
use libiocp.Frame.Layout.{packet, length-packet}
use libiocp.Session.State.{World, io_recv, recv_finished}
use libiocp.Session.Io.{
  IoResult, Extract, incomplete, recv_extract_package, recv_package, process_iocp, recv_olp,
}
use libiocp.Session.Extract.{recv_extract_package_lem, parse_prefix}
use libiocp.Session.Deliver.{Holds, deliver}
use libiocp.Session.Arrival.{
  Started, Same, waits_recv, land, Arrive, flatten, Delivered, process_recv, Awaits,
}

size-trail_move : (b : Iobuf) (n : ℕ) → (trail_move b n).size ≡ b.size
unfolding trail_move
size-trail_move b n = ground arith

-- One completion: the bytes are appended, the buffer stays valid, and `recv_package` sees them.
record Landed (w : World) (mem chunk : List ℕ) (io : IoResult) (err : ℕ) : Type 0 where
  valid : IsValid (trail_move (land w mem).session.recv_buf (length chunk))
  held :
      contents (trail_move (land w mem).session.recv_buf (length chunk))
      ≡ contents w.session.recv_buf ++ chunk
  ran :
      process_iocp (land w mem) (length chunk) recv_olp err io
      ≡ (recv_package (land w mem) (length chunk) io).0

module _ {w : World} {p q : ℕ} {bytes rest : List ℕ} (a : Awaits w p q bytes rest) where
  abbrev buf : Iobuf
  buf = w.session.recv_buf

  chunk_lands :
      (mem chunk more : List ℕ) (io : IoResult) (err : ℕ)
      → contents buf ++ (chunk ++ more) ≡ packet p q bytes ++ rest
      → 0 < length chunk
      → Filled (get_unused_bufs buf) chunk buf.buf mem
      → Landed w mem chunk io err
  chunk_lands mem chunk more io err e pos f = record {
    valid = Filled-IsValid buf chunk mem a.valid f (omega (arith, room));
    held = contents-Filled buf chunk a.valid mem f room;
    ran = process_recv (land w mem) (length chunk) err io pos a.op;
  }
    where
      room : length chunk + length_used buf < buf.size
      room = omega (
        arith,
        a.room,
        length-contents buf,
        ap length e,
        length-append (contents buf) (chunk ++ more),
        length-append chunk more,
        length-append (packet p q bytes) rest,
        length-packet p q bytes,
      )

  last_chunk :
      (v : World) (last : List ℕ)
      → contents buf ++ last ≡ packet p q bytes ++ rest
      → Arrive w (last ∷ []) v
      → Delivered w v bytes rest
  unfolding recv_finished
  last_chunk v last e (mem, io, err, pos, f, st, end) =
      let (b, shown, valid, left) = deliver (land w mem) (length last) io holds a.fits in
      rw (end ∙ l.ran ∙ ap (λ (x : World × ℤ). x.0) shown) (ground arith)
    where
      l : Landed w mem last io err
      l = chunk_lands mem last [] io err (ap (◌++◌ (contents buf)) (append-nil last) ∙ e) pos f

      holds : Holds (trail_move (land w mem).session.recv_buf (length last)) p q bytes rest
      holds = record { valid = l.valid; held = l.held ∙ e; positive = a.positive; small = a.small }

  -- A completion that leaves the package incomplete.
  middle_chunk :
      (mem chunk more : List ℕ) (io : IoResult) (err : ℕ)
      → contents buf ++ (chunk ++ more) ≡ packet p q bytes ++ rest
      → length (contents buf) + length chunk < header_size + length bytes
      → 0 < length chunk
      → Filled (get_unused_bufs buf) chunk buf.buf mem
      → Started io
      → let next = process_iocp (land w mem) (length chunk) recv_olp err io in
        Same w next
        × (contents next.session.recv_buf ≡ contents buf ++ chunk)
        × Awaits next p q bytes rest
  middle_chunk mem chunk more io err e short pos f st = rw l.ran (
    record {
      queue = same.queue;
      sessions = same.sessions;
      id = same.id;
      socket = same.socket;
      user = same.user;
      user_len = same.user_len;
      send_buf = same.send_buf;
    },
    ap contents moved ∙ l.held,
    record {
      valid = rw moved l.valid;
      op = parts.2;
      open_socket = rw same.socket a.open_socket;
      positive = a.positive;
      small = a.small;
      fits = rw same.user_len a.fits;
      room = rw (moved, size-trail_move (land w mem).session.recv_buf (length chunk)) a.room;
    },
  )
    where
      l : Landed w mem chunk io err
      l = chunk_lands mem chunk more io err e pos f

      landed : Iobuf
      landed = trail_move (land w mem).session.recv_buf (length chunk)

      verdict : (recv_extract_package landed).0 ≡ incomplete
      verdict =
          ap (λ (x : Extract × Header). x.0) (recv_extract_package_lem landed l.valid)
          ∙ parse_prefix landed.size p q bytes rest (contents landed) more a.positive a.small
              (omega (arith, a.room, size-trail_move (land w mem).session.recv_buf (length chunk)))
              (ap (λ xs. xs ++ more) l.held ∙ append_assoc (contents buf) chunk more ∙ e)
              (omega (arith, ap length l.held, length-append (contents buf) chunk))

      parts :
          Same (land w mem) (recv_package (land w mem) (length chunk) io).0
          × ((recv_package (land w mem) (length chunk) io).0.session.recv_buf ≡ landed)
          × ((recv_package (land w mem) (length chunk) io).0.session.recv_op ≡ io_recv)
      parts = waits_recv (land w mem) (length chunk) io st verdict

      same : Same (land w mem) (recv_package (land w mem) (length chunk) io).0
      same = parts.0

      moved : (recv_package (land w mem) (length chunk) io).0.session.recv_buf ≡ landed
      moved = parts.1

Delivered-Same :
    (w u v : World) (bytes rest : List ℕ)
    → Same w u
    → Delivered u v bytes rest
    → Delivered w v bytes rest
Delivered-Same w u v bytes rest s d = record {
  user = d.user ∙ ap (write 0 bytes) s.user;
  notice = d.notice ∙ rw (s.queue, s.id);
  valid = d.valid;
  left = d.left;
}

-- A package that arrives in any pieces, with what follows it, is delivered once and as a whole by
-- the completion that brings its last byte, and no notice comes before.
pub reassembly :
    (w v : World) (chunks : List (List ℕ)) (last : List ℕ) (p q : ℕ) (bytes rest : List ℕ)
    → Awaits w p q bytes rest
    → contents w.session.recv_buf ++ (flatten chunks ++ last) ≡ packet p q bytes ++ rest
    → length (contents w.session.recv_buf) + length (flatten chunks) < header_size + length bytes
    → Arrive w (chunks ++ last ∷ []) v
    → Delivered w v bytes rest
reassembly w v [] last p q bytes rest a e short run = last_chunk a v last e run
reassembly w v (chunk ∷ chunks) last p q bytes rest a e short (mem, io, err, pos, f, st, run) =
    let (same, now, awaits) =
      middle_chunk a mem chunk (flatten chunks ++ last) io err
        (ap (◌++◌ (contents w.session.recv_buf)) (sym (append_assoc chunk (flatten chunks) last))
          ∙ e)
        (omega (arith, length-append chunk (flatten chunks))) pos f st in
    Delivered-Same w _ v bytes rest same (
      reassembly (process_iocp (land w mem) (length chunk) recv_olp err io) v chunks last p q bytes
        rest awaits
        (rw now (
          append_assoc (contents w.session.recv_buf) chunk (flatten chunks ++ last)
          ∙ ap (◌++◌ (contents w.session.recv_buf)) (sym (append_assoc chunk (flatten chunks) last))
          ∙ e))
        (omega (
          arith,
          ap length now,
          length-append (contents w.session.recv_buf) chunk,
          length-append chunk (flatten chunks),
        ))
        run)
