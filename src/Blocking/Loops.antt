-- ===== src/Blocking/Loops.antt =====
-- The loops of libsocket over partial transfers.
use libiocp.Base.{
  ℕ, ◌+◌, ◌-◌, ◌*◌, ◌≤◌, ◌<◌, ◌≡◌, ap, ◌∙◌, List, [], ◌∷◌, ◌++◌, Option, none, some, arith, length,
  take, slice, take_add, ℕ_discrete, sym, write,
}
use libiocp.Blocking.{
  magic, header_size, get_int, put_head, SendEnd, sent, refused, unsent, send_loop, send, received,
  recv_loop, recv,
}

-- Every call of `::send` that does not fail takes at least one byte.
abbrev pub Takes : List (Option ℕ) → Type 0
Takes [] = Unit
Takes (none ∷ rets) = Takes rets
Takes (some ret ∷ rets) = (0 < ret) × Takes rets

abbrev pub Ends : SendEnd → Type 0
Ends (sent gone) = Unit
Ends (refused gone) = Unit
Ends (unsent gone) = ⊥

send_loop-Ends :
    (raw : List ℕ) (rets : List (Option ℕ)) (sended sending at : ℕ) (gone : List ℕ)
    → Takes rets
    → sending ≤ length rets
    → 0 < length rets
    → Ends (send_loop raw rets sended sending at gone)
unfolding send_loop
send_loop-Ends raw [] sended sending at gone t le some_left = omega arith
send_loop-Ends raw (none ∷ rets) sended sending at gone t le some_left = tt
send_loop-Ends raw (some ret ∷ rets) sended sending at gone (pos, t) le some_left =
    elim (ℕ_discrete (sending - (sended + ret)) 0) [
      | yes over ↦ ground arith
      | no more ↦
          let rest =
            send_loop-Ends raw rets (sended + ret) (sending - (sended + ret)) (at + (sended + ret))
              (gone ++ slice at ret raw) t (omega arith) (omega arith) in
          ground (arith, rest)
    ]

-- `send` ends, whatever the calls of `::send` take of the message, as long as each takes a byte: it
-- makes no more calls than the message and its header have bytes.
pub send-Ends :
    (raw : List ℕ) (len : ℕ) (rets : List (Option ℕ))
    → Takes rets
    → len + header_size ≤ length rets
    → Ends (send raw len rets)
unfolding send
send-Ends raw len rets t le =
    send_loop-Ends (put_head len raw) rets 0 (len + header_size) 0 [] t le (omega arith)

-- After two calls of `::send` the loop has ended with true as soon as twice the first part and the
-- second make up the message: what has been sent is its front, of the size of the two parts, which
-- is the whole only if the parts make it up themselves.
pub send_front :
    (raw : List ℕ) (len part next : ℕ) (rets : List (Option ℕ))
    → part < len + header_size
    → len + header_size ≤ 2 * part + next
    → send raw len (some part ∷ some next ∷ rets) ≡ sent (take (part + next) (put_head len raw))
unfolding send send_loop
send_front raw len part next rets more enough =
    let m = put_head len raw in
    let offset : 0 + (0 + part) ≡ part = omega arith in
    let parts : take part m ++ slice (0 + (0 + part)) next m ≡ take (part + next) m =
      ap (λ j. take part m ++ slice j next m) offset ∙ sym (take_add part next m) in
    ground (arith, parts)

-- The bytes that arrive.
unfoldable pub arriving : List (Option (List ℕ)) → ℕ
arriving [] = 0
arriving (none ∷ chunks) = arriving chunks
arriving (some bytes ∷ chunks) = length bytes + arriving chunks

recv_loop_counts :
    (chunks : List (Option (List ℕ))) (recved : ℕ) (raw : List ℕ) (size : ℕ) (now : List ℕ)
    (rest : List (Option (List ℕ)))
    → recv_loop chunks recved raw ≡ received size now rest
    → recved + arriving chunks ≡ size + arriving rest
unfolding recv_loop arriving
recv_loop_counts [] recved raw size now rest e = cc
recv_loop_counts (none ∷ chunks) recved raw size now rest e = cc
recv_loop_counts (some bytes ∷ chunks) recved raw size now rest e =
    let next = write recved bytes raw in
    elim (ℕ_discrete (get_int 0 next) magic) [
      | no other ↦ ground (arith)
      | yes same ↦ elim (ℕ_discrete (recved + length bytes) (get_int 4 next)) [
        | yes full ↦ ground arith
        | no part ↦
            let counts =
              recv_loop_counts chunks (recved + length bytes) next size now rest (ground arith) in
            omega (arith, counts)
      ]
    ]

-- A message arrives with as many bytes behind its header as the header says, and nothing after it.
-- When `recv` returns true on it, the last eight bytes of the message have not been read.
pub recv_short :
    (raw : List ℕ) (chunks : List (Option (List ℕ))) (size : ℕ) (now : List ℕ)
    (rest : List (Option (List ℕ)))
    → recv raw chunks ≡ received size now rest
    → arriving chunks ≡ header_size + size
    → arriving rest ≡ header_size
unfolding recv arriving
recv_short raw chunks size now rest e whole =
    omega (arith, recv_loop_counts chunks 0 raw size now rest e)
