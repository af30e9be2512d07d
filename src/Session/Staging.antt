-- ===== src/Session/Staging.antt =====
-- What the senders put into the send buffer, and which bytes WSASend is given.
use libiocp.Base.{
  ℕ, ◌+◌, ◌≤◌, ◌<◌, ◌^◌, ◌≡◌, refl, ap, ap₂, ◌∙◌, ◌⊎◌, inl, inr, some, none, List, [], ◌++◌, arith,
  length, get_or, write, length-write, dec_lt,
}
use libiocp.Iobuf.{Iobuf, length_used, trail_move, detect_add, reset}
use libiocp.Iobuf.Valid.{IsValid}
use libiocp.Iobuf.Contents.{contents}
use libiocp.Iobuf.Fill.{contents-append}
use libiocp.Frame.{header_size, put_header}
use libiocp.Frame.Layout.{packet, length-packet, put_header-packet}
use libiocp.Session.State.{Session}
use libiocp.Session.Api.{send_init, send_add}

-- A send buffer is filled from its start and never goes round its end.
pub record IsStaged (b : Iobuf) : Type 0 where
  pub valid : IsValid b
  pub straight : b.head ≤ b.trail

pub send_init-IsStaged :
    (s : Session)
    → IsValid s.send_buf
    → IsStaged (send_init s).send_buf × (contents (send_init s).send_buf ≡ [])
unfolding send_init reset length_used
send_init-IsStaged s v = (ground arith, refl)

-- The two bytes of padding that a header at the trail gets.
abbrev pad : Iobuf → ℕ → ℕ
pad b i = get_or b.buf (b.trail + i) 0

staged : Iobuf → List ℕ → Iobuf
staged b bytes =
    trail_move
      (record b {
        buf = write (b.trail + header_size) bytes (put_header b.trail (length bytes) b.buf);
      })
      (length bytes + header_size)

module _ (b : Iobuf) (bytes : List ℕ) (st : IsStaged b)
    (fits : b.trail + (length bytes + header_size) < b.size) where
  abbrev pack : List ℕ
  pack = packet (pad b 2) (pad b 3) bytes

  staged_as :
      staged b bytes ≡ trail_move (record b { buf = write b.trail pack b.buf }) (length pack)
  unfolding staged
  staged_as =
      ap₂ (λ m n. trail_move (record b { buf = m }) n)
        (put_header-packet b.trail bytes b.buf (omega (arith, st.valid.storage)))
        (omega (arith, length-packet (pad b 2) (pad b 3) bytes))

  staged-IsStaged : IsStaged (staged b bytes)
  unfolding trail_move
  staged-IsStaged =
      rw staged_as
        (ground (arith, length-packet (pad b 2) (pad b 3) bytes, length-write b.trail pack b.buf))

  contents-staged : contents (staged b bytes) ≡ contents b ++ pack
  unfolding length_used
  contents-staged =
      ap contents staged_as
      ∙ contents-append b pack st.valid
          (omega (arith, used, length-packet (pad b 2) (pad b 3) bytes))
          (omega (arith, length-packet (pad b 2) (pad b 3) bytes))
    where
      used : length_used b ≤ b.trail
      used = ground (arith, st.straight)

-- If the length of a package is an int, and it has room below the end, `send_add` appends it to what is staged, with a header that
-- has its length; if not, it refuses.
pub send_add_lem :
    (s : Session) (bytes : List ℕ)
    → IsStaged s.send_buf
    → length bytes + header_size < 2 ^ 31
    → ((send_add s bytes ≡ none)
        × (s.send_buf.size ≤ s.send_buf.trail + (length bytes + header_size)))
      ⊎ ((t : Session) × (send_add s bytes ≡ some t)
          × IsStaged t.send_buf
          × (contents t.send_buf
              ≡ contents s.send_buf ++ packet (pad s.send_buf 2) (pad s.send_buf 3) bytes)
          × (t ≡ record s { send_buf = t.send_buf }))
unfolding send_add detect_add staged
send_add_lem s bytes st is_int =
    elim (dec_lt (s.send_buf.trail + (length bytes + header_size)) s.send_buf.size) [
      | yes fits ↦ inr (
        record s { send_buf = staged s.send_buf bytes },
        ground arith,
        staged-IsStaged s.send_buf bytes st fits,
        contents-staged s.send_buf bytes st fits,
        refl,
      )
      | no full ↦ inl (ground arith, omega arith)
    ]
