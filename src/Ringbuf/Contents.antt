-- ===== src/Ringbuf/Contents.antt =====
-- The items that the ring of ringbufT holds, as a list.
use libiocp.Base.{
  ℕ, zero, suc, ◌+◌, ◌-◌, ◌%◌, ◌≤◌, ◌<◌, ◌≡◌, ◌≢◌, sym, ap, ◌∙◌, List, [], ◌∷◌, ◌++◌, arith, length,
  get_or, tabulate, length-append, length-tabulate, get_or-append, get_or-tabulate, get_or-write,
  length-write, list_ext, mod_once, ltb, ◌==◌, if◌then◌else◌, dec_lt,
}
use libiocp.Ringbuf.{Ring, used, put_slot, get_slot}

module _ {A : Type 0} (junk : A) where
  pub record IsValid (r : Ring A) : Type 0 where
    pub length_buf : length r.buf ≡ r.n
    pub first_lt : r.first < r.n
    pub last_lt : r.last < r.n

  -- The item that stands `i` places behind the oldest one.
  abbrev pub item_at : Ring A → ℕ → A
  item_at r i = get_or r.buf ((r.last + 1 + i) % r.n) junk

  -- The items, the oldest first.
  abbrev pub contents : Ring A → List A
  contents r = tabulate (used junk r) (item_at r)

  pub used_once :
      (r : Ring A)
      → IsValid r
      → used junk r
        ≡ (if ltb r.last r.first then r.first - r.last - 1 else r.first + r.n - r.last - 1)
  unfolding used
  used_once r v = ground (arith, v.first_lt, v.last_lt, mod_once (r.first + r.n - r.last - 1) r.n)

  item_at_once :
      (r : Ring A) (i : ℕ)
      → IsValid r
      → i < r.n
      → item_at r i
        ≡ get_or r.buf
            (if ltb (r.last + 1 + i) r.n then r.last + 1 + i else r.last + 1 + i - r.n)
            junk
  item_at_once r i v lt =
      ap (λ k. get_or r.buf k junk) (mod_once (r.last + 1 + i) r.n (omega (arith, v.last_lt)))

  wrap_next : (k n : ℕ) → k < n → (k + 1) % n ≡ (if k + 1 == n then 0 else k + 1)
  wrap_next k n lt = elim (dec_lt (k + 1) n) [
    | yes p ↦ ground (arith, mod_once (k + 1) n)
    | no p ↦ ground (arith, mod_once (k + 1) n)
  ]

  -- A list of the right length that agrees with every item is the contents.
  contents-eq :
      (r : Ring A) (xs : List A)
      → used junk r ≡ length xs
      → ((i : ℕ) → i < length xs → item_at r i ≡ get_or xs i junk)
      → contents r ≡ xs
  contents-eq r xs e h =
      list_ext junk (contents r) xs (length-tabulate (used junk r) (item_at r) ∙ e) (λ i lt.
        let lt' : i < length xs = omega (arith, e, length-tabulate (used junk r) (item_at r)) in
        ground (arith, get_or-tabulate (used junk r) (item_at r) i junk, h i lt'))

  pub put_slot-IsValid : (r : Ring A) (t : A) → IsValid r → IsValid (put_slot junk r t)
  unfolding put_slot
  put_slot-IsValid r t v = record {
    length_buf =
        length-write r.first (t ∷ []) r.buf (omega (arith, v.length_buf, v.first_lt))
        ∙ v.length_buf;
    first_lt = ground (arith, wrap_next r.first r.n v.first_lt, v.first_lt);
    last_lt = v.last_lt;
  }

  pub used-put_slot :
      (r : Ring A) (t : A)
      → IsValid r
      → r.first ≢ r.last
      → used junk (put_slot junk r t) ≡ used junk r + 1
  unfolding put_slot
  used-put_slot r t v room = ground (
    arith,
    v.first_lt,
    v.last_lt,
    used_once r v,
    used_once (put_slot junk r t) (put_slot-IsValid r t v),
    wrap_next r.first r.n v.first_lt,
  )

  pub used-lt : (r : Ring A) → IsValid r → used junk r < r.n
  used-lt r v = ground (arith, v.first_lt, v.last_lt, used_once r v)

  item_at-put_slot :
      (r : Ring A) (t : A) (i : ℕ)
      → IsValid r
      → r.first ≢ r.last
      → i ≤ used junk r
      → item_at (put_slot junk r t) i ≡ (if i == used junk r then t else item_at r i)
  unfolding put_slot
  item_at-put_slot r t i v room le =
      let lt : i < r.n = omega (arith, le, used-lt r v) in
      let j : ℕ = (if ltb (r.last + 1 + i) r.n then r.last + 1 + i else r.last + 1 + i - r.n) in
      ground (
        arith,
        v.first_lt,
        v.last_lt,
        v.length_buf,
        used_once r v,
        item_at_once r i v lt,
        mod_once (r.last + 1 + i) r.n,
        get_or-write r.first (t ∷ []) r.buf j junk,
      )

  pub contents-put_slot :
      (r : Ring A) (t : A)
      → IsValid r
      → r.first ≢ r.last
      → contents (put_slot junk r t) ≡ contents r ++ t ∷ []
  contents-put_slot r t v room =
      contents-eq (put_slot junk r t) (contents r ++ t ∷ [])
        (omega (
          arith,
          used-put_slot r t v room,
          length-append (contents r) (t ∷ []),
          length-tabulate (used junk r) (item_at r),
        ))
        (λ i lt.
          let le : i ≤ used junk r = omega (
            arith,
            length-append (contents r) (t ∷ []),
            length-tabulate (used junk r) (item_at r),
          ) in
          ground (
            arith,
            length-tabulate (used junk r) (item_at r),
            item_at-put_slot r t i v room le,
            get_or-append (contents r) (t ∷ []) i junk,
            get_or-tabulate (used junk r) (item_at r) i junk,
          ))

  pub get_slot-IsValid : (r : Ring A) → IsValid r → IsValid (get_slot junk r).1
  unfolding get_slot
  get_slot-IsValid r v = record {
    length_buf = v.length_buf;
    first_lt = v.first_lt;
    last_lt = ground (arith, wrap_next r.last r.n v.last_lt, v.last_lt);
  }

  pub used-get_slot :
      (r : Ring A) → IsValid r → used junk r ≢ 0 → used junk (get_slot junk r).1 + 1 ≡ used junk r
  unfolding get_slot
  used-get_slot r v some_left = ground (
    arith,
    v.first_lt,
    v.last_lt,
    used_once r v,
    used_once (get_slot junk r).1 (get_slot-IsValid r v),
    wrap_next r.last r.n v.last_lt,
  )

  item_at-get_slot :
      (r : Ring A) (i : ℕ)
      → IsValid r
      → suc i < r.n
      → item_at (get_slot junk r).1 i ≡ item_at r (suc i)
  unfolding get_slot
  item_at-get_slot r i v lt = ground (
    arith,
    v.last_lt,
    item_at_once r (suc i) v lt,
    item_at_once (get_slot junk r).1 i (get_slot-IsValid r v) (omega arith),
    wrap_next r.last r.n v.last_lt,
  )

  got-get_slot : (r : Ring A) → (get_slot junk r).0 ≡ item_at r 0
  unfolding get_slot
  got-get_slot r = ap (λ k. get_or r.buf (k % r.n) junk) (omega arith)

  item_at-rest :
      (r : Ring A) (i : ℕ)
      → IsValid r
      → i < used junk r
      → used junk r ≢ 0
      → item_at r i ≡ get_or ((get_slot junk r).0 ∷ contents (get_slot junk r).1) i junk
  item_at-rest r zero v lt some_left = sym (got-get_slot r)
  item_at-rest r (suc i) v lt some_left = ground (
    arith,
    used-lt r v,
    item_at-get_slot r i v (omega (arith, used-lt r v)),
    used-get_slot r v some_left,
    get_or-tabulate (used junk (get_slot junk r).1) (item_at (get_slot junk r).1) i junk,
  )

  pub contents-get_slot :
      (r : Ring A)
      → IsValid r
      → used junk r ≢ 0
      → contents r ≡ (get_slot junk r).0 ∷ contents (get_slot junk r).1
  contents-get_slot r v some_left =
      let rest : Ring A = (get_slot junk r).1 in
      let e : used junk r ≡ suc (length (contents rest)) =
        (omega
          (arith, used-get_slot r v some_left, length-tabulate (used junk rest) (item_at rest))) in
      contents-eq r ((get_slot junk r).0 ∷ contents rest) e
        (λ i lt. item_at-rest r i v (omega (arith, e)) some_left)
