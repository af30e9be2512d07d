-- ===== src/Iobuf/Steps.antt =====
-- What the session does to a byte ring, step by step, against the list of its bytes.
use libiocp.Base.{
  ℕ, ◌+◌, ◌≤◌, ◌<◌, ◌≡◌, refl, sym, ap, ◌∙◌, ◌↔◌, List, [], ◌∷◌, ◌++◌, arith, length, drop,
}
use mathlib.Core.Path.{subst}
use libiocp.Iobuf.{Iobuf, get_unused_bufs, head_move, trail_move, length_used, reset}
use libiocp.Iobuf.Valid.{length_used-lt, head_move-IsValid, reset-IsValid, bufs-partition}
use libiocp.Iobuf.Contents.{contents, length-contents, contents-eq, contents-head_move}
use libiocp.Iobuf.Fill.{Filled, contents-Filled, Filled-IsValid}
use libiocp.Iobuf.Abstract.{Ring}

-- Bytes are taken off at the head, a transfer fills the unused blocks, or the ring is emptied.
pub data RingOp : Type 0 where
  takes : ℕ → RingOp
  fills : List ℕ → RingOp
  resets : RingOp

-- A step of a ring of `n` bytes. The bytes taken are there, and a transfer leaves a free slot.
abbrev pub RingStep : RingOp → (n : ℕ) → Ring n → Ring n → Type 0
RingStep (takes k) n r s = (k ≤ length_used r.buffer) × (s.buffer ≡ head_move r.buffer k)
RingStep (fills bytes) n r s =
    (length bytes + length_used r.buffer < n)
    × Filled (get_unused_bufs r.buffer) bytes r.buffer.buf s.buffer.buf
    × (s.buffer ≡ trail_move (record (r.buffer) { buf = s.buffer.buf }) (length bytes))
RingStep resets n r s = s.buffer ≡ reset r.buffer

-- The same step of a list of fewer than `n` bytes.
abbrev pub ListStep : RingOp → (n : ℕ) → List ℕ → List ℕ → Type 0
ListStep (takes k) n xs ys = (k ≤ length xs) × (ys ≡ drop k xs)
ListStep (fills bytes) n xs ys = (length bytes + length xs < n) × (ys ≡ xs ++ bytes)
ListStep resets n xs ys = ys ≡ []

contents-reset : (b : Iobuf) → contents (reset b) ≡ []
unfolding reset length_used
contents-reset b = contents-eq (reset b) [] (ground arith) (λ i lt. absurd (omega arith))

size-trail_move : (b : Iobuf) (k : ℕ) → (trail_move b k).size ≡ b.size
unfolding trail_move
size-trail_move b k = ground arith

size-head_move : (b : Iobuf) (k : ℕ) → (head_move b k).size ≡ b.size
unfolding head_move
size-head_move b k = ground arith

buf-trail_move : (b : Iobuf) (k : ℕ) → (trail_move b k).buf ≡ b.buf
unfolding trail_move
buf-trail_move b k = ground arith

-- Each step of the ring is that step of its bytes.
step_down :
    (op : RingOp) {n : ℕ} (r s : Ring n)
    → RingStep op n r s
    → ListStep op n (contents r.buffer) (contents s.buffer)
step_down (takes k) r s (le, e) = (
  omega (arith, length-contents r.buffer),
  ap contents e ∙ contents-head_move r.buffer k r.valid le,
)
step_down (fills bytes) r s (room, f, e) = (
  omega (arith, length-contents r.buffer),
  ap contents e ∙ contents-Filled r.buffer bytes r.valid s.buffer.buf f (omega (arith, r.sized)),
)
step_down resets r s e = ap contents e ∙ contents-reset r.buffer

-- The ring behind a transfer whose bytes have been scattered into `new`.
filled :
    {n : ℕ} (r : Ring n) (bytes new : List ℕ)
    → length bytes + length_used r.buffer < n
    → Filled (get_unused_bufs r.buffer) bytes r.buffer.buf new
    → (s : Ring n) × RingStep (fills bytes) n r s
filled r bytes new room f =
    let b : Iobuf = record (r.buffer) { buf = new } in
    let same = buf-trail_move b (length bytes) in
    (
      record {
        buffer = trail_move b (length bytes);
        valid = Filled-IsValid r.buffer bytes new r.valid f (omega (arith, r.sized));
        sized = size-trail_move b (length bytes) ∙ r.sized;
      },
      (
        room,
        (f.0, same ∙ f.1),
        ap (λ m. trail_move (record (r.buffer) { buf = m }) (length bytes)) (sym same),
      ),
    )

-- Each step of the bytes is a step of the ring.
step_up :
    (op : RingOp) {n : ℕ} (r : Ring n) (ys : List ℕ)
    → ListStep op n (contents r.buffer) ys
    → (s : Ring n) × RingStep op n r s × (contents s.buffer ≡ ys)
unfolding reset
step_up (takes k) r ys (le, e) =
    let le' : k ≤ length_used r.buffer = omega (arith, length-contents r.buffer) in
    (
      record {
        buffer = head_move r.buffer k;
        valid = head_move-IsValid k r.valid (omega (arith, length_used-lt r.valid));
        sized = size-head_move r.buffer k ∙ r.sized;
      },
      (le', refl),
      contents-head_move r.buffer k r.valid le' ∙ sym e,
    )
step_up (fills bytes) {n = n} r ys (room, e) =
    let b = r.buffer in
    let u = get_unused_bufs b in
    let room' : length bytes + length_used b < n = omega (arith, length-contents b) in
    let fits : length bytes ≤ u.len1 + u.len2 = omega (arith, bufs-partition r.valid, r.sized) in
    let (s, step) = filled r bytes _ room' (fits, refl) in
    (s, step, (step_down (fills bytes) r s step).1 ∙ sym e)
step_up resets r ys e = (
  record { buffer = reset r.buffer; valid = reset-IsValid r.valid; sized = r.sized },
  refl,
  contents-reset r.buffer ∙ sym e,
)

abbrev pub RingRun : List RingOp → (n : ℕ) → Ring n → Ring n → Type 0
RingRun [] n r s = r ≡ s
RingRun (op ∷ ops) n r s = (m : Ring n) × RingStep op n r m × RingRun ops n m s

abbrev pub ListRun : List RingOp → ℕ → List ℕ → List ℕ → Type 0
ListRun [] n xs ys = xs ≡ ys
ListRun (op ∷ ops) n xs ys = (zs : List ℕ) × ListStep op n xs zs × ListRun ops n zs ys

-- A ring of `n` bytes implements a list of fewer than `n` bytes: whatever is taken off, filled in and
-- emptied, the bytes `ys` can come out for the list exactly if a run of the ring ends with them.
pub run_iff :
    (n : ℕ) (ops : List RingOp) (r : Ring n) (ys : List ℕ)
    → ListRun ops n (contents r.buffer) ys
      ↔ ((s : Ring n) × RingRun ops n r s × (contents s.buffer ≡ ys))
run_iff n [] r ys = (λ e. (r, refl, e), λ (s, e, c). ap (λ x. contents x.buffer) e ∙ c)
run_iff n (op ∷ ops) r ys = (
  λ (zs, step, run).
      let (m, up, e) = step_up op r zs step in
      let (s, rest, c) = (run_iff n ops m ys).0 (subst (λ x. ListRun ops n x ys) (sym e) run) in
      (s, (m, up, rest), c),
  λ (s, (m, step, run), c).
      (contents m.buffer, step_down op r m step, (run_iff n ops m ys).1 (s, run, c)),
)
