-- ===== src/Iobuf.antt =====
-- inc/sglib/iocp/iocp_buffer.h: class iobuf, the byte ring under each session.
-- A pointer into the storage is its offset from `_buf`; `_buf_end` is the offset `size`.
pub mod Valid
pub mod Contents
pub mod Copy
pub mod Fill
pub mod Abstract
pub mod Steps
mod Tests
use libiocp.Base.{
  ℕ, zero, suc, ◌+◌, ◌-◌, ◌%◌, Bool, true, false, List, [], ◌∷◌, ◌++◌, Option, none, some, ltb, leb,
  ◌==◌, if◌then◌else◌, get_or, slice, length,
}

pub record Iobuf : Type 0 where
  pub buf : List ℕ
  pub size : ℕ
  pub head : ℕ
  pub trail : ℕ

-- The constructor, over the block that `new char [size]` returned.
pub init : List ℕ → ℕ → Iobuf
init storage size = record { buf = storage; size = size; head = 0; trail = 0 }

-- What the two `get_…_bufs` write through their four out parameters; `buf2` is `none` where they
-- leave the pointer as it was.
pub record Bufs : Type 0 where
  pub buf1 : ℕ
  pub len1 : ℕ
  pub buf2 : Option ℕ
  pub len2 : ℕ

unfoldable pub get_used_bufs : Iobuf → Bufs
get_used_bufs b =
    if leb b.head b.trail
    then record { buf1 = b.head; len1 = b.trail - b.head; buf2 = none; len2 = 0 }
    else record { buf1 = b.head; len1 = b.size - b.head; buf2 = some 0; len2 = b.trail }

unfoldable pub get_unused_bufs : Iobuf → Bufs
get_unused_bufs b =
    if ltb b.trail b.head
    then record { buf1 = b.trail; len1 = b.head - b.trail; buf2 = none; len2 = 0 }
    else record { buf1 = b.trail; len1 = b.size - b.trail; buf2 = some 0; len2 = b.head }

unfoldable pub head_move : Iobuf → ℕ → Iobuf
head_move b step =
    if leb b.size (b.head + step)
    then record b { head = b.head + step - b.size }
    else record b { head = b.head + step }

unfoldable pub trail_move : Iobuf → ℕ → Iobuf
trail_move b step =
    if leb b.size (b.trail + step)
    then record b { trail = b.trail + step - b.size }
    else record b { trail = b.trail + step }

-- `len` is negative exactly if the trail stands before the head.
unfoldable pub length_used : Iobuf → ℕ
length_used b = if ltb b.trail b.head then b.trail + b.size - b.head else b.trail - b.head

unfoldable pub detect_add : Iobuf → ℕ → Bool
detect_add b addlen = if leb b.size (b.trail + addlen) then false else true

-- The loop of `safe_copy`: the `n` bytes that are left, from loop index `i` on.
copy_loop : Iobuf → ℕ → ℕ → ℕ → List ℕ
copy_loop b base i zero = []
copy_loop b base i (suc n) = get_or b.buf ((base + i) % b.size) 0 ∷ copy_loop b base (suc i) n

-- The copies return the bytes that they write to `dst`.
unfoldable pub safe_copy : Iobuf → ℕ → List ℕ
unfolding copy_loop
safe_copy b n = if leb (b.head + n) b.size then slice b.head n b.buf else copy_loop b b.head 0 n

-- `memcpy` from the second block; an unset pointer is read as the start of the storage.
second : Bufs → ℕ → List ℕ → List ℕ
second u n buf = elim u.buf2 [ none ↦ slice 0 n buf | some off ↦ slice off n buf ]

unfoldable pub fast_copy : Iobuf → ℕ → List ℕ
unfolding get_used_bufs second
fast_copy b n =
    let u = get_used_bufs b in
    let n1 = (if leb u.len1 n then u.len1 else n) in
    let n2 = n - n1 in
    if n2 == 0 then slice u.buf1 n1 b.buf else slice u.buf1 n1 b.buf ++ second u n2 b.buf

unfoldable pub reset : Iobuf → Iobuf
reset b = record b { head = 0; trail = 0 }
