-- ===== src/Iobuf/Valid.antt =====
-- The representation invariant of iobuf and the arithmetic of its two pointers.
use libiocp.Base.{ℕ, ◌+◌, ◌≤◌, ◌<◌, ◌≡◌, List, arith, length}
use libiocp.Iobuf.{
  Iobuf, init, get_used_bufs, get_unused_bufs, head_move, trail_move, length_used, reset,
}

pub record IsValid (b : Iobuf) : Type 0 where
  pub storage : length b.buf ≡ b.size
  pub head_in : b.head < b.size
  pub trail_in : b.trail < b.size

pub init-IsValid : (s : List ℕ) (n : ℕ) → 0 < n → length s ≡ n → IsValid (init s n)
unfolding init
init-IsValid s n h e = omega arith

-- A valid buffer holds fewer bytes than its storage: one slot always stays free.
pub length_used-lt : {b : Iobuf} → IsValid b → length_used b < b.size
unfolding length_used
length_used-lt v = ground arith

-- The used and the unused blocks lie within the storage and together are the whole of it.
pub bufs-partition :
    {b : Iobuf}
    → IsValid b
    → let u = get_used_bufs b in
      let f = get_unused_bufs b in
      (u.len1 + u.len2 ≡ length_used b)
      × (u.len1 + u.len2 + (f.len1 + f.len2) ≡ b.size)
      × (u.buf1 + u.len1 ≤ b.size)
      × (f.buf1 + f.len1 ≤ b.size)
      × (0 < f.len1)
unfolding get_used_bufs get_unused_bufs length_used
bufs-partition v = (ground arith, ground arith, ground arith, ground arith, ground arith)

-- Moving a pointer by at most the size keeps the buffer valid.
pub head_move-IsValid : {b : Iobuf} (n : ℕ) → IsValid b → n ≤ b.size → IsValid (head_move b n)
unfolding head_move
head_move-IsValid n v h = ground arith

pub trail_move-IsValid : {b : Iobuf} (n : ℕ) → IsValid b → n ≤ b.size → IsValid (trail_move b n)
unfolding trail_move
trail_move-IsValid n v h = ground arith

pub reset-IsValid : {b : Iobuf} → IsValid b → IsValid (reset b)
unfolding reset
reset-IsValid v = omega arith

-- Within what is used, `head_move` takes off exactly `n` bytes.
pub length-head_move :
    {b : Iobuf} (n : ℕ)
    → IsValid b
    → n ≤ length_used b
    → length_used (head_move b n) + n ≡ length_used b
unfolding head_move length_used
length-head_move n v h = ground arith

-- Below the whole free space, `trail_move` adds exactly `n` bytes.
pub length-trail_move :
    {b : Iobuf} (n : ℕ)
    → IsValid b
    → n + length_used b < b.size
    → length_used (trail_move b n) ≡ length_used b + n
unfolding trail_move length_used
length-trail_move n v h = ground arith

-- A transfer that fills the whole free space makes the buffer count as empty.
pub trail_move_full :
    {b : Iobuf} (n : ℕ)
    → IsValid b
    → n ≡ (get_unused_bufs b).len1 + (get_unused_bufs b).len2
    → length_used (trail_move b n) ≡ 0
unfolding trail_move length_used get_unused_bufs
trail_move_full n v h = ground arith
