-- ===== src/Iobuf/Copy.antt =====
-- The two ways in which iobuf copies its oldest bytes out.
use libiocp.Base.{
  ℕ, zero, suc, ◌+◌, ◌-◌, ◌%◌, ◌≤◌, ◌<◌, ◌≡◌, refl, ap, ◌∙◌, List, ◌++◌, arith, length, get_or,
  take, slice, length-append, length-take, get_or-append, get_or-take, get_or-slice, length-slice,
  list_ext, dec_le,
}
use libiocp.Iobuf.{Iobuf, get_used_bufs, length_used, safe_copy, fast_copy, copy_loop}
use libiocp.Iobuf.Valid.{IsValid, length_used-lt}
use libiocp.Iobuf.Contents.{byte_at, contents, length-contents, get_or-contents, byte_at_once}

length-copy_loop : (b : Iobuf) (base i n : ℕ) → length (copy_loop b base i n) ≡ n
unfolding copy_loop
length-copy_loop b base i zero = refl
length-copy_loop b base i (suc n) = ap suc (length-copy_loop b base (suc i) n)

get_or-copy_loop :
    (b : Iobuf) (base i n j : ℕ)
    → j < n
    → get_or (copy_loop b base i n) j 0 ≡ get_or b.buf ((base + (i + j)) % b.size) 0
unfolding copy_loop
get_or-copy_loop b base i zero j h = absurd (omega arith)
get_or-copy_loop b base i (suc n) zero h =
    ap (λ k. get_or b.buf ((base + k) % b.size) 0) (omega arith)
get_or-copy_loop b base i (suc n) (suc j) h =
    get_or-copy_loop b base (suc i) n j (omega arith)
    ∙ ap (λ k. get_or b.buf ((base + k) % b.size) 0) (omega arith)

module _ (b : Iobuf) (n : ℕ) (v : IsValid b) (h : n ≤ length_used b) where
  prefix :
      (xs : List ℕ)
      → length xs ≡ n
      → ((i : ℕ) → i < n → get_or xs i 0 ≡ byte_at b i)
      → xs ≡ take n (contents b)
  prefix xs e p =
      list_ext 0 xs (take n (contents b))
        (omega (arith, length-take n (contents b), length-contents b))
        λ i lt. ground (arith, p i, get_or-take n (contents b) i 0, get_or-contents b i)

  straight : b.head + n ≤ b.size → slice b.head n b.buf ≡ take n (contents b)
  straight fits =
      prefix (slice b.head n b.buf) (length-slice b.head n b.buf (omega (arith, v.storage)))
        λ i lt. ground (arith, get_or-slice b.head n b.buf i 0, byte_at_once b i v)

  wrapped : copy_loop b b.head 0 n ≡ take n (contents b)
  wrapped = prefix (copy_loop b b.head 0 n) (length-copy_loop b b.head 0 n) λ i lt.
      get_or-copy_loop b b.head 0 n i lt
      ∙ ap (λ k. get_or b.buf ((b.head + k) % b.size) 0) (omega arith)

  two_blocks :
      ¬ (b.head + n ≤ b.size)
      → slice b.head (b.size - b.head) b.buf ++ slice 0 (n - (b.size - b.head)) b.buf
        ≡ take n (contents b)
  two_blocks over = prefix (xs ++ ys) (omega (arith, length-append xs ys, lx, ly)) λ i lt. ground (
    arith,
    lx,
    get_or-append xs ys i 0,
    get_or-slice b.head (b.size - b.head) b.buf i 0,
    get_or-slice 0 (n - (b.size - b.head)) b.buf (i - length xs) 0,
    byte_at_once b i v,
    length_used-lt v,
  )
    where
      xs : List ℕ
      xs = slice b.head (b.size - b.head) b.buf

      ys : List ℕ
      ys = slice 0 (n - (b.size - b.head)) b.buf

      lx : length xs ≡ b.size - b.head
      lx = length-slice b.head (b.size - b.head) b.buf (omega (arith, v.storage))

      ly : length ys ≡ n - (b.size - b.head)
      ly = length-slice 0 (n - (b.size - b.head)) b.buf (omega (arith, length_used-lt v))

  -- `safe_copy` yields the oldest `n` bytes, on the `memcpy` branch and on the loop.
  pub safe_copy_lem : safe_copy b n ≡ take n (contents b)
  unfolding safe_copy
  safe_copy_lem = ground (arith, straight, wrapped)

  -- `fast_copy` yields the oldest `n` bytes, from one block or from two.
  pub fast_copy_lem : fast_copy b n ≡ take n (contents b)
  unfolding fast_copy get_used_bufs length_used
  fast_copy_lem = elim (dec_le (b.head + n) b.size) [
    | yes fits ↦ ground (arith, straight fits)
    | no over ↦ ground (arith, two_blocks over)
  ]
