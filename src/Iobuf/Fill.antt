-- ===== src/Iobuf/Fill.antt =====
-- Bytes that arrive: the scatter into the unused blocks, and the append at the trail.
use libiocp.Base.{
  ap, ℕ, ◌+◌, ◌-◌, ◌≤◌, ◌<◌, ◌≡◌, ◌∙◌, List, ◌++◌, arith, length, get_or, take, drop, write,
  length-take, length-drop, length-write, get_or-take, get_or-drop, get_or-write, ltb,
  if◌then◌else◌, min,
}
use libiocp.Iobuf.{Iobuf, Bufs, get_unused_bufs, trail_move, length_used}
use libiocp.Iobuf.Valid.{
  IsValid, length_used-lt, length-trail_move, bufs-partition, trail_move-IsValid,
}
use libiocp.Iobuf.Contents.{byte_at, contents, byte_at_once, contents-extend}

-- What WSARecv documents: the buffers are filled in their order, each to its end before the next.
abbrev pub Filled : Bufs → List ℕ → List ℕ → List ℕ → Type 0
Filled u bytes old new =
    (length bytes ≤ u.len1 + u.len2)
    × (new ≡ write 0 (drop u.len1 bytes) (write u.buf1 (take u.len1 bytes) old))

abbrev wrap : ℕ → ℕ → ℕ
wrap size k = if ltb k size then k else k - size

byte_at-trail_move : (b : Iobuf) (n i : ℕ) → byte_at (trail_move b n) i ≡ byte_at b i
unfolding trail_move
byte_at-trail_move b n i = ground arith

-- If the new memory keeps the used places and has the bytes from the trail on, they are appended.
contents-landed :
    (b : Iobuf) (bytes new : List ℕ)
    → IsValid b
    → length new ≡ b.size
    → length bytes + length_used b < b.size
    → ((i : ℕ)
        → i < length_used b
        → get_or new (wrap b.size (b.head + i)) 0 ≡ get_or b.buf (wrap b.size (b.head + i)) 0)
    → ((i : ℕ) → i < length bytes → get_or new (wrap b.size (b.trail + i)) 0 ≡ get_or bytes i 0)
    → contents (trail_move (record b { buf = new }) (length bytes)) ≡ contents b ++ bytes
unfolding length_used
contents-landed b bytes new v size room keep land =
    contents-extend b (trail_move c (length bytes)) bytes v
      (length-trail_move (length bytes) vc room)
      (λ i lt. byte_at-trail_move c (length bytes) i ∙ kept i lt)
      (λ i lt. byte_at-trail_move c (length bytes) (length_used b + i) ∙ landed i lt)
  where
    c : Iobuf
    c = record b { buf = new }

    vc : IsValid c
    vc = record { storage = size; head_in = v.head_in; trail_in = v.trail_in }

    kept : (i : ℕ) → i < length_used b → byte_at c i ≡ byte_at b i
    kept i lt = ground (arith, keep i lt, byte_at_once b i v, byte_at_once c i vc, length_used-lt v)

    landed : (i : ℕ) → i < length bytes → byte_at c (length_used b + i) ≡ get_or bytes i 0
    landed i lt = ground (arith, land i lt, byte_at_once c (length_used b + i) vc)

module _ (b : Iobuf) (bytes : List ℕ) (v : IsValid b) where
  -- Bytes copied to the trail, with room before the end of the storage, are appended.
  pub contents-append :
      length bytes + length_used b < b.size
      → b.trail + length bytes ≤ b.size
      → contents (trail_move (record b { buf = write b.trail bytes b.buf }) (length bytes))
        ≡ contents b ++ bytes
  unfolding length_used
  contents-append room fits =
      contents-landed b bytes (write b.trail bytes b.buf) v
        (omega (arith, length-write b.trail bytes b.buf, v.storage)) room
        (λ i lt.
          ground (arith, v.storage, get_or-write b.trail bytes b.buf (wrap b.size (b.head + i)) 0))
        (λ i lt. ground (arith, v.storage, get_or-write b.trail bytes b.buf (b.trail + i) 0))

  abbrev unused : Bufs
  unused = get_unused_bufs b

  abbrev xs : List ℕ
  xs = take unused.len1 bytes

  abbrev ys : List ℕ
  ys = drop unused.len1 bytes

  abbrev mid : List ℕ
  mid = write unused.buf1 xs b.buf

  lengths : (length xs ≡ min unused.len1 (length bytes)) × (length ys ≡ length bytes - unused.len1)
  lengths = (length-take unused.len1 bytes, length-drop unused.len1 bytes)

  mid-size : length mid ≡ b.size
  mid-size = omega (arith, length-write unused.buf1 xs b.buf, lengths, v.storage, bufs-partition v)

  size : length bytes ≤ unused.len1 + unused.len2 → length (write 0 ys mid) ≡ b.size
  size h = omega (arith, length-write 0 ys mid, lengths, mid-size, bufs-partition v)

  -- What stands at each place after both writes.
  new_at :
      (p : ℕ)
      → get_or (write 0 ys mid) p 0 ≡ (
          if ltb p (length bytes - unused.len1)
          then get_or bytes (unused.len1 + p) 0
          else if ltb p unused.buf1
          then get_or b.buf p 0
          else if ltb p (unused.buf1 + min unused.len1 (length bytes))
          then get_or bytes (p - unused.buf1) 0
          else get_or b.buf p 0)
  new_at p = ground (
    arith,
    lengths,
    v.storage,
    bufs-partition v,
    get_or-write 0 ys mid p 0,
    get_or-write unused.buf1 xs b.buf p 0,
    get_or-drop unused.len1 bytes p 0,
    get_or-take unused.len1 bytes (p - unused.buf1) 0,
  )

  -- Bytes that WSARecv puts into the unused blocks are appended, if they leave a free slot.
  pub contents-Filled :
      (new : List ℕ)
      → Filled (get_unused_bufs b) bytes b.buf new
      → length bytes + length_used b < b.size
      → contents (trail_move (record b { buf = new }) (length bytes)) ≡ contents b ++ bytes
  unfolding length_used get_unused_bufs
  contents-Filled new f room = rw f.1 (
      contents-landed b bytes (write 0 ys mid) v (size f.0) room
        (λ i lt. ground (arith, new_at (wrap b.size (b.head + i))))
        (λ i lt. ground (arith, new_at (wrap b.size (b.trail + i)))))

-- Such a transfer keeps the buffer valid.
pub Filled-IsValid :
    (b : Iobuf) (bytes new : List ℕ)
    → IsValid b
    → Filled (get_unused_bufs b) bytes b.buf new
    → length bytes ≤ b.size
    → IsValid (trail_move (record b { buf = new }) (length bytes))
Filled-IsValid b bytes new v f le =
    trail_move-IsValid (length bytes)
      (record {
        storage = ap length f.1 ∙ size b bytes v f.0;
        head_in = v.head_in;
        trail_in = v.trail_in;
      })
      le
