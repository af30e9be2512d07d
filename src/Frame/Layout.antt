-- ===== src/Frame/Layout.antt =====
-- A package as bytes: what `put_header` writes, `get_header` reads back.
use libiocp.Base.{
  ℕ, ◌+◌, ◌-◌, ◌^◌, ◌≤◌, ◌<◌, ◌≡◌, refl, List, [], ◌∷◌, ◌++◌, arith, length, get_or, take, write,
  if◌then◌else◌, ltb, zero, suc, ap, ◌==◌, ◌∙◌, sym, ap₂, length-append, length-write, get_or-write,
  get_or-append, get_or-take, list_ext,
}
use libiocp.Frame.{magic, header_size, le16, le32, put_header, get_header}

-- The bytes of one package, with the two padding bytes that its head happens to have.
abbrev pub packet : ℕ → ℕ → List ℕ → List ℕ
packet p q bytes = (le16 magic ++ (p ∷ q ∷ [])) ++ (le32 (length bytes) ++ bytes)

pub length-packet :
    (p q : ℕ) (bytes : List ℕ) → length (packet p q bytes) ≡ header_size + length bytes
unfolding le16 le32
length-packet p q bytes = omega arith

-- The header of a package is read back, whatever follows it.
pub get_header-packet :
    (p q : ℕ) (bytes rest : List ℕ)
    → length bytes < 2 ^ 31
    → get_header (packet p q bytes ++ rest) ≡ record { magic = magic; size = length bytes }
unfolding get_header le16 le32
get_header-packet p q bytes rest h = ground arith

pub get_header-take : (xs : List ℕ) → get_header (take header_size xs) ≡ get_header xs
unfolding get_header
get_header-take xs = ground (
  arith,
  get_or-take 8 xs 0 0,
  get_or-take 8 xs 1 0,
  get_or-take 8 xs 4 0,
  get_or-take 8 xs 5 0,
  get_or-take 8 xs 6 0,
  get_or-take 8 xs 7 0,
)

-- Two writes of which the second begins where the first ends are one write.
pub write-write :
    (off next : ℕ) (xs ys mem : List ℕ)
    → next ≡ off + length xs
    → next + length ys ≤ length mem
    → write next ys (write off xs mem) ≡ write off (xs ++ ys) mem
write-write off next xs ys mem e h =
    list_ext 0 _ _
      (omega (
        arith,
        lx,
        length-write next ys (write off xs mem),
        length-write off (xs ++ ys) mem,
        length-append xs ys,
      ))
      λ i lt. ground (
        arith,
        lx,
        length-append xs ys,
        get_or-write next ys (write off xs mem) i 0,
        get_or-write off xs mem i 0,
        get_or-write off (xs ++ ys) mem i 0,
        get_or-append xs ys (i - off) 0,
      )
  where
    lx : length (write off xs mem) ≡ length mem
    lx = length-write off xs mem (omega arith)

get_or-two :
    (a b k d : ℕ) → get_or (a ∷ b ∷ []) k d ≡ (if ltb k 1 then a else if ltb k 2 then b else d)
get_or-two a b zero d = ground arith
get_or-two a b (suc zero) d = ground arith
get_or-two a b (suc (suc k)) d = ground arith

-- Bytes written over themselves.
write_same :
    (off : ℕ) (mem : List ℕ)
    → off + 2 ≤ length mem
    → write off (get_or mem off 0 ∷ get_or mem (off + 1) 0 ∷ []) mem ≡ mem
write_same off mem h = list_ext 0 _ _ (length-write off _ mem h) λ i lt. ground (
  arith,
  get_or-write off (get_or mem off 0 ∷ get_or mem (off + 1) 0 ∷ []) mem i 0,
  get_or-two (get_or mem off 0) (get_or mem (off + 1) 0) (i - off) 0,
  ap (λ k. get_or mem k 0) (near i),
)
  where
    near : (i : ℕ) → i ≡ (if i == off then off else if i == off + 1 then off + 1 else i)
    near i = ground arith

-- The head and the bytes that the senders write one after the other are one package at `off`.
pub put_header-packet :
    (off : ℕ) (bytes mem : List ℕ)
    → off + header_size + length bytes ≤ length mem
    → write (off + header_size) bytes (put_header off (length bytes) mem)
      ≡ write off (packet (get_or mem (off + 2) 0) (get_or mem (off + 3) 0) bytes) mem
unfolding put_header le16 le32
put_header-packet off bytes mem h =
    ap (λ m. write (off + header_size) bytes (write (off + 4) size m)) (sym pad)
    ∙ ap (write (off + header_size) bytes)
        (write-write off (off + 4) (le16 magic ++ gap) size mem refl (omega arith))
    ∙ write-write off (off + header_size) ((le16 magic ++ gap) ++ size) bytes mem refl (omega arith)
  where
    size : List ℕ
    size = le32 (length bytes)

    gap : List ℕ
    gap = get_or mem (off + 2) 0 ∷ get_or mem (off + 3) 0 ∷ []

    begun : List ℕ
    begun = write off (le16 magic) mem

    untouched : (k : ℕ) → off + 2 ≤ k → get_or begun k 0 ≡ get_or mem k 0
    untouched k le = ground (arith, get_or-write off (le16 magic) mem k 0)

    gap_same : write (off + 2) gap begun ≡ begun
    gap_same =
        ap₂ (λ a b. write (off + 2) (a ∷ b ∷ []) begun) (sym (untouched (off + 2) (omega arith)))
          (sym (untouched (off + 3) (omega arith)) ∙ ap (λ k. get_or begun k 0) (omega arith))
        ∙ write_same (off + 2) begun (omega (arith, length-write off (le16 magic) mem))

    pad : write off (le16 magic ++ gap) mem ≡ begun
    pad = sym (write-write off (off + 2) (le16 magic) gap mem refl (omega arith)) ∙ gap_same

pub length-put_header :
    (off size : ℕ) (mem : List ℕ)
    → off + header_size ≤ length mem
    → length (put_header off size mem) ≡ length mem
unfolding put_header le16 le32
length-put_header off size mem h =
    length-write (off + 4) (le32 size) (write off (le16 magic) mem)
      (omega (arith, length-write off (le16 magic) mem))
    ∙ length-write off (le16 magic) mem (omega arith)
