-- ===== src/Session/Deliver.antt =====
-- `recv_package` on a completion: a whole package is delivered, one that is too large for the user
-- is left in place, and a part of one makes the session receive more.
use libiocp.Base.{
  ℕ, ◌+◌, ◌^◌, ◌≤◌, ◌<◌, ◌≡◌, ◌≢◌, refl, ap, ◌∙◌, List, ◌++◌, arith, length, take, drop, write,
  length-append, one, zero_int, take-append, drop-append,
}
use libiocp.Iobuf.{Iobuf, length_used, head_move, trail_move, fast_copy}
use libiocp.Iobuf.Valid.{IsValid, length_used-lt, head_move-IsValid}
use libiocp.Iobuf.Contents.{contents, length-contents, contents-head_move}
use libiocp.Iobuf.Copy.{fast_copy_lem}
use libiocp.Frame.{magic, header_size, le16, le32}
use libiocp.Frame.Layout.{packet, length-packet}
use libiocp.Package.{NetStatus}
use libiocp.Queue.{put}
use libiocp.Session.State.{World, recv_finished, recv_failed, notify}
use libiocp.Session.Io.{IoResult, complete, recv_extract_package, recv_parsed, recv_package}
use libiocp.Session.Extract.{parse, recv_extract_package_lem, parse-packet}

-- A valid buffer whose contents begin with a whole package.
pub record Holds (b : Iobuf) (p q : ℕ) (bytes rest : List ℕ) : Type 0 where
  pub valid : IsValid b
  pub held : contents b ≡ packet p q bytes ++ rest
  pub positive : 0 < length bytes
  pub small : length bytes < 2 ^ 31

module _ {b : Iobuf} {p q : ℕ} {bytes rest : List ℕ} (h : Holds b p q bytes rest) where
  open h use {valid, held, positive, small}

  room : length_used b ≡ header_size + length bytes + length rest
  room = omega (
    arith,
    length-contents b,
    ap length held,
    length-append (packet p q bytes) rest,
    length-packet p q bytes,
  )

  pub Holds-complete :
      recv_extract_package b ≡ (complete, record { magic = magic; size = length bytes })
  Holds-complete =
      recv_extract_package_lem b valid
      ∙ ap (parse b.size) held
      ∙ parse-packet b.size p q bytes rest positive small
          (omega (arith, room, length_used-lt valid))

  -- After the header has been taken off.
  body : Iobuf
  body = head_move b header_size

  body-IsValid : IsValid body
  unfolding body
  body-IsValid = head_move-IsValid header_size valid (omega (arith, room, length_used-lt valid))

  body_held : contents body ≡ bytes ++ rest
  unfolding body le16 le32
  body_held =
      contents-head_move b header_size valid (omega (arith, room)) ∙ ap (drop header_size) held

  body_used : length_used body ≡ length bytes + length rest
  body_used = omega (arith, length-contents body, ap length body_held, length-append bytes rest)

  body_copy : fast_copy body (length bytes) ≡ bytes
  body_copy =
      fast_copy_lem body (length bytes) body-IsValid (omega (arith, body_used))
      ∙ ap (take (length bytes)) body_held
      ∙ take-append bytes rest

  -- The buffer once the package is gone.
  remainder : Iobuf
  unfolding body
  remainder = head_move body (length bytes)

  remainder-IsValid : IsValid remainder
  unfolding remainder
  remainder-IsValid =
      head_move-IsValid (length bytes) body-IsValid
        (omega (arith, body_used, length_used-lt body-IsValid))

  remainder_held : contents remainder ≡ rest
  unfolding remainder
  remainder_held =
      contents-head_move body (length bytes) body-IsValid (omega (arith, body_used))
      ∙ ap (drop (length bytes)) body_held
      ∙ drop-append bytes rest

-- The session after a package of `bytes` has been handed over.
abbrev pub handed : World → Iobuf → List ℕ → World
handed w rest bytes = recv_finished (record w {
  session = record (w.session) {
    recv_buf = rest;
    pack_size = length bytes;
    io_recv_buf = write 0 bytes w.session.io_recv_buf;
  };
})

module _ (w : World) (trans : ℕ) (io : IoResult) {p q : ℕ} {bytes rest : List ℕ} where
  -- The package is handed over as `handed` says, and what followed it is left.
  pub deliver :
      Holds (trail_move w.session.recv_buf trans) p q bytes rest
      → length bytes ≤ w.session.io_recv_buf_len
      → (b : Iobuf) × (recv_package w trans io ≡ (handed w b bytes, one))
        × IsValid b
        × (contents b ≡ rest)
  unfolding recv_package remainder
  deliver h fits = (remainder h, shown, remainder-IsValid h, remainder_held h)
    where
      shown : recv_package w trans io ≡ (handed w (remainder h) bytes, one)
      shown =
          ap (recv_parsed w (trail_move w.session.recv_buf trans) io) (Holds-complete h)
          ∙ ground (arith, body_copy h)

  -- A completion on an open session after which the buffer begins with a whole package that the
  -- user's memory can take: its bytes are copied there, one notice is put, `recv_finished` with their
  -- number, nothing is called, and the buffer is left with exactly what followed the package.
  pub delivers :
      Holds (trail_move w.session.recv_buf trans) p q bytes rest
      → length bytes ≤ w.session.io_recv_buf_len
      → w.session.socket ≢ 0
      → let (v, result) = recv_package w trans io in
        (result ≡ one)
        × (v.queue
            ≡ (put w.queue (record {
              status = NetStatus.recv_finished;
              session = w.session.id;
              pack_size = length bytes;
              err = 0;
            })).0)
        × (v.calls ≡ w.calls)
        × (v.session.io_recv_buf ≡ write 0 bytes w.session.io_recv_buf)
        × IsValid v.session.recv_buf
        × (contents v.session.recv_buf ≡ rest)
  unfolding recv_finished notify
  delivers h fits open_socket =
      let (b, shown, valid, left) = deliver h fits in
      rw shown (
        refl,
        ground arith,
        ground arith,
        ground arith,
        ground (arith, valid),
        ground (arith, left),
      )

  -- If the user's memory is too small, one notice is put on an open session, `recv_failed` with the size
  -- that is needed; the user's memory is as it was, nothing is called, and the package stays at the
  -- head of the buffer.
  pub refuses :
      Holds (trail_move w.session.recv_buf trans) p q bytes rest
      → w.session.io_recv_buf_len < length bytes
      → w.session.socket ≢ 0
      → let (v, result) = recv_package w trans io in
        (result ≡ zero_int)
        × (v.queue
            ≡ (put w.queue (record {
              status = NetStatus.recv_failed;
              session = w.session.id;
              pack_size = length bytes;
              err = 0;
            })).0)
        × (v.calls ≡ w.calls)
        × (v.session.io_recv_buf ≡ w.session.io_recv_buf)
        × IsValid v.session.recv_buf
        × (contents v.session.recv_buf ≡ packet p q bytes ++ rest)
  unfolding recv_package recv_failed notify
  refuses h less open_socket =
      let shown = ap (recv_parsed w (trail_move w.session.recv_buf trans) io) (Holds-complete h) in
      rw shown (
        ground arith,
        ground arith,
        ground arith,
        ground arith,
        ground (arith, h.valid),
        ground (arith, h.held),
      )
