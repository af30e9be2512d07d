-- ===== src/Iobuf/Contents.antt =====
-- The bytes that an iobuf holds, as a list, and what the pointer moves and writes do to them.
use libiocp.Base.{
  ℕ, ◌+◌, ◌-◌, ◌%◌, ◌≤◌, ◌<◌, ◌≡◌, sym, ap, ◌∙◌, List, ◌++◌, arith, length, get_or, drop, slice,
  tabulate, length-append, length-drop, length-tabulate, get_or-append, get_or-drop,
  get_or-tabulate, get_or-slice, length-slice, list_ext, mod_once, ltb, if◌then◌else◌, dec_lt,
}
use libiocp.Iobuf.{Iobuf, get_used_bufs, head_move, length_used}
use libiocp.Iobuf.Valid.{IsValid, length_used-lt, length-head_move, bufs-partition}

-- The byte that stands `i` places after the head, going round at the end of the storage.
abbrev pub byte_at : Iobuf → ℕ → ℕ
byte_at b i = get_or b.buf ((b.head + i) % b.size) 0

abbrev pub contents : Iobuf → List ℕ
contents b = tabulate (length_used b) (byte_at b)

pub length-contents : (b : Iobuf) → length (contents b) ≡ length_used b
length-contents b = length-tabulate (length_used b) (byte_at b)

pub get_or-contents :
    (b : Iobuf) (i : ℕ) → i < length_used b → get_or (contents b) i 0 ≡ byte_at b i
get_or-contents b i h = ground (arith, get_or-tabulate (length_used b) (byte_at b) i 0)

pub byte_at_once :
    (b : Iobuf) (i : ℕ)
    → IsValid b
    → i < b.size
    → byte_at b i
      ≡ get_or b.buf (if ltb (b.head + i) b.size then b.head + i else b.head + i - b.size) 0
byte_at_once b i v h = ap (λ k. get_or b.buf k 0) (mod_once (b.head + i) b.size (omega arith))

-- A list of the right length that agrees with every byte is the contents.
pub contents-eq :
    (b : Iobuf) (xs : List ℕ)
    → length_used b ≡ length xs
    → ((i : ℕ) → i < length xs → byte_at b i ≡ get_or xs i 0)
    → contents b ≡ xs
contents-eq b xs e h = list_ext 0 _ _ (length-contents b ∙ e) (λ i lt.
    let lt' : i < length_used b = omega (arith, length-contents b) in
    get_or-contents b i lt' ∙ h i (omega arith))

byte_at-head_move :
    (b : Iobuf) (n i : ℕ)
    → IsValid b
    → n + i < b.size
    → n ≤ b.size
    → byte_at (head_move b n) i ≡ byte_at b (n + i)
unfolding head_move
byte_at-head_move b n i v h k = ground (
  arith,
  mod_once (b.head + (n + i)) b.size,
  mod_once (b.head + n + i) b.size,
  mod_once (b.head + n - b.size + i) b.size,
)

-- `head_move` drops the oldest bytes, and only those.
pub contents-head_move :
    (b : Iobuf) (n : ℕ)
    → IsValid b
    → n ≤ length_used b
    → contents (head_move b n) ≡ drop n (contents b)
contents-head_move b n v h =
    contents-eq (head_move b n) (drop n (contents b)) (omega (arith, sizes)) λ i lt.
      byte_at-head_move b n i v (omega (arith, sizes, length_used-lt v))
        (omega (arith, length_used-lt v))
      ∙ sym (get_or-drop n (contents b) i 0 ∙ get_or-contents b (n + i) (omega (arith, sizes)))
  where
    sizes :
        (length (drop n (contents b)) ≡ length_used b - n)
        × (length_used (head_move b n) + n ≡ length_used b)
    sizes = (omega (arith, length-drop n (contents b), length-contents b), length-head_move n v h)

-- The used blocks, read one after the other, are the contents.
pub used_bufs-contents :
    (b : Iobuf)
    → IsValid b
    → let u = get_used_bufs b in slice u.buf1 u.len1 b.buf ++ slice 0 u.len2 b.buf ≡ contents b
unfolding get_used_bufs length_used
used_bufs-contents b v = sym (contents-eq b (xs ++ ys) sizes pointwise)
  where
    xs : List ℕ
    xs = slice (get_used_bufs b).buf1 (get_used_bufs b).len1 b.buf

    ys : List ℕ
    ys = slice 0 (get_used_bufs b).len2 b.buf

    lx : length xs ≡ (get_used_bufs b).len1
    lx = length-slice (get_used_bufs b).buf1 (get_used_bufs b).len1 b.buf (ground arith)

    ly : length ys ≡ (get_used_bufs b).len2
    ly = length-slice 0 (get_used_bufs b).len2 b.buf (ground arith)

    sizes : length_used b ≡ length (xs ++ ys)
    sizes = omega (arith, length-append xs ys, lx, ly, bufs-partition v)

    pointwise : (i : ℕ) → i < length (xs ++ ys) → byte_at b i ≡ get_or (xs ++ ys) i 0
    pointwise i lt = ground (
      arith,
      lx,
      ly,
      sizes,
      byte_at_once b i v,
      get_or-append xs ys i 0,
      get_or-slice (get_used_bufs b).buf1 (get_used_bufs b).len1 b.buf i 0,
      get_or-slice 0 (get_used_bufs b).len2 b.buf (i - length xs) 0,
    )

-- What new bytes at the trail add, wherever the write went.
pub contents-extend :
    (b b' : Iobuf) (xs : List ℕ)
    → IsValid b
    → length_used b' ≡ length_used b + length xs
    → ((i : ℕ) → i < length_used b → byte_at b' i ≡ byte_at b i)
    → ((i : ℕ) → i < length xs → byte_at b' (length_used b + i) ≡ get_or xs i 0)
    → contents b' ≡ contents b ++ xs
contents-extend b b' xs v e old new =
    contents-eq b' (contents b ++ xs)
      (omega (arith, length-append (contents b) xs, length-contents b))
      λ i lt. elim (dec_lt i (length_used b)) [
        | yes p ↦ ground (
          arith,
          get_or-append (contents b) xs i 0,
          length-contents b,
          get_or-contents b i p,
          old i p,
        )
        | no p ↦ ground (
          arith,
          get_or-append (contents b) xs i 0,
          length-append (contents b) xs,
          length-contents b,
          new (i - length_used b),
          ap (byte_at b') (back (length_used b) i (omega arith)),
        )
      ]
  where
    back : (a c : ℕ) → a ≤ c → a + (c - a) ≡ c
    back a c h = omega arith
