-- ===== src/Session/Sending.antt =====
-- One call of `send`, and the completions of WSASend until the package is out.
use mathlib.Core.List.{append-nil}
use mathlib.Core.Path.{subst}
use libiocp.Base.{
  ℕ, ◌+◌, ◌≤◌, ◌<◌, ◌^◌, ◌≡◌, refl, sym, ap, ◌∙◌, ◌≢◌, ◌⊎◌, inl, inr, some, none, List, [], ◌∷◌,
  ◌++◌, arith, length, get_or, take, slice, write, length-append, dec_lt, one, minus_one,
}
use libiocp.Iobuf.{Iobuf, Bufs, get_used_bufs, detect_add, reset}
use libiocp.Iobuf.Valid.{IsValid}
use libiocp.Iobuf.Contents.{contents, used_bufs-contents}
use libiocp.Frame.{header_size, put_header}
use libiocp.Frame.Layout.{packet, write-write}
use libiocp.Session.State.{io_send, Session, World, wsa_send}
use libiocp.Session.Io.{IoResult, send_block}
use libiocp.Session.Api.{send_init, send_add, send, send_two}
use libiocp.Session.Arrival.{Started}
use libiocp.Frame.Layout.{length-put_header}
use libiocp.Session.Staging.{IsStaged, send_init-IsStaged, send_add_lem}

straight-len2 : (b : Iobuf) → IsStaged b → (get_used_bufs b).len2 ≡ 0
unfolding get_used_bufs
straight-len2 b st = ground (arith, st.straight)

-- One more WSASend, of all that is staged, and nothing else that a receiver could see.
pub record BlockSent (w v : World) : Type 0 where
  pub calls : v.calls ≡ w.calls ++ wsa_send (contents w.session.send_buf) ∷ []
  pub queue : v.queue ≡ w.queue
  pub buffer : v.session.send_buf ≡ w.session.send_buf
  pub op : v.session.send_op ≡ io_send
  pub socket : v.session.socket ≡ w.session.socket
  pub id : v.session.id ≡ w.session.id
  pub pack_size : v.session.pack_size ≡ w.session.pack_size

-- WSASend is given all that is staged.
pub send_block_lem :
    (w : World) (io : IoResult)
    → IsStaged w.session.send_buf
    → Started io
    → ((send_block w io).1 ≡ one) × BlockSent w (send_block w io).0
unfolding send_block
send_block_lem w io st started = ground (arith, whole)
  where
    u : Bufs
    u = get_used_bufs w.session.send_buf

    whole : slice u.buf1 u.len1 w.session.send_buf.buf ≡ contents w.session.send_buf
    whole =
        sym (append-nil _)
        ∙ ap (λ n. slice u.buf1 u.len1 w.session.send_buf.buf ++ take n w.session.send_buf.buf)
            (sym (straight-len2 w.session.send_buf st))
        ∙ used_bufs-contents w.session.send_buf st.valid

-- The two forms of `send` do the same, given the same bytes in one piece or in two, if
-- their length with the header is an int.
pub send_two_lem :
    (w : World) (bytes1 bytes2 : List ℕ) (io : IoResult)
    → IsValid w.session.send_buf
    → length bytes1 + length bytes2 + header_size < 2 ^ 31
    → send_two w bytes1 bytes2 io ≡ send w (bytes1 ++ bytes2) io
unfolding send_two send send_add detect_add
send_two_lem w bytes1 bytes2 io v is_int =
    elim (dec_lt (b.trail + (length bytes1 + length bytes2 + header_size)) b.size) [
      | yes fits ↦ ground (arith, length-append bytes1 bytes2, same fits)
      | no full ↦ ground (arith, length-append bytes1 bytes2)
    ]
  where
    b : Iobuf
    b = (send_init w.session).send_buf

    both : Iobuf → List ℕ
    both c = write (c.trail + header_size + length bytes1) bytes2 (
        write (c.trail + header_size) bytes1
          (put_header c.trail (length bytes1 + length bytes2) c.buf))

    same :
        b.trail + (length bytes1 + length bytes2 + header_size) < b.size
        → both b
          ≡ write
              (b.trail + header_size)
              (bytes1 ++ bytes2)
              (put_header b.trail (length (bytes1 ++ bytes2)) b.buf)
    same fits =
        write-write (b.trail + header_size) (b.trail + header_size + length bytes1) bytes1 bytes2 _
          refl
          (omega (
            arith,
            length-put_header b.trail (length bytes1 + length bytes2) b.buf,
            (send_init-IsStaged w.session v).0.valid.storage,
          ))
        ∙ ap (λ n. write (b.trail + header_size) (bytes1 ++ bytes2) (put_header b.trail n b.buf))
            (sym (length-append bytes1 bytes2))

-- What is asked of a session to which a package is still to be sent, and what it still holds.
pub record Sends (w : World) (bytes : List ℕ) : Type 0 where
  pub staged : IsStaged w.session.send_buf
  pub op : w.session.send_op ≡ io_send
  pub open_socket : w.session.socket ≢ 0
  pub held : contents w.session.send_buf ≡ bytes

send_taken :
    (w : World) (bytes : List ℕ) (io : IoResult) {t : Session}
    → send_add (send_init w.session) bytes ≡ some t
    → send w bytes io ≡ send_block (record w { session = t }) io
unfolding send
send_taken w bytes io e = ground arith

send_refused :
    (w : World) (bytes : List ℕ) (io : IoResult)
    → send_add (send_init w.session) bytes ≡ none
    → send w bytes io ≡ (record w { session = send_init w.session }, minus_one)
unfolding send
send_refused w bytes io e = ground arith

-- After a WSASend of what is staged.
pub block-Sends :
    (w : World) (bytes : List ℕ) (io : IoResult)
    → IsStaged w.session.send_buf
    → Started io
    → w.session.socket ≢ 0
    → contents w.session.send_buf ≡ bytes
    → Sends (send_block w io).0 bytes
block-Sends w bytes io staged st open_socket held =
    let f = (send_block_lem w io staged st).1 in
    record {
      staged = rw f.buffer staged;
      op = f.op;
      open_socket = rw f.socket open_socket;
      held = ap contents f.buffer ∙ held;
    }

-- `send` of a message whose length with the header is an int, on an open session whose WSASend starts:
-- if it fits it makes one WSASend, of the whole package, and puts nothing on the queue; if it does not
-- fit it is refused with -1, and no call is made.
pub send_lem :
    (w : World) (bytes : List ℕ) (io : IoResult)
    → IsValid w.session.send_buf
    → w.session.socket ≢ 0
    → Started io
    → length bytes + header_size < 2 ^ 31
    → ((w.session.send_buf.size ≤ length bytes + header_size)
        × ((send w bytes io).1 ≡ minus_one)
        × ((send w bytes io).0.calls ≡ w.calls)
        × ((send w bytes io).0.queue ≡ w.queue))
      ⊎ ((p : ℕ) × (q : ℕ) × ((send w bytes io).1 ≡ one)
          × ((send w bytes io).0.calls ≡ w.calls ++ wsa_send (packet p q bytes) ∷ [])
          × ((send w bytes io).0.queue ≡ w.queue)
          × Sends (send w bytes io).0 (packet p q bytes))
unfolding send_init reset
send_lem w bytes io v open_socket st is_int =
    elim (send_add_lem (send_init w.session) bytes begun.0 is_int) [
      | inl (e, full) ↦
          let r = send_refused w bytes io e in inl (omega arith, rw r refl, rw r refl, rw r refl)
      | inr (t, e, staged, held, shape) ↦
          let r = send_taken w bytes io e in
          let f = send_block_lem (record w { session = t }) io staged st in
          let held' =
            held
            ∙ ap
                (λ xs.
                  xs
                  ++ packet (get_or w.session.send_buf.buf 2 0) (get_or w.session.send_buf.buf 3 0)
                      bytes)
                begun.1 in
          inr (
            get_or w.session.send_buf.buf 2 0,
            get_or w.session.send_buf.buf 3 0,
            rw r f.0,
            rw r (f.1.calls ∙ ap (λ xs. w.calls ++ wsa_send xs ∷ []) held'),
            rw r f.1.queue,
            rw r (
                block-Sends (record w { session = t })
                  (packet (get_or w.session.send_buf.buf 2 0) (get_or w.session.send_buf.buf 3 0)
                    bytes)
                  io staged st (subst (λ (x : Session). x.socket ≢ 0) (sym shape) open_socket)
                  held'),
          )
    ]
  where
    begun : IsStaged (send_init w.session).send_buf × (contents (send_init w.session).send_buf ≡ [])
    begun = send_init-IsStaged w.session v
