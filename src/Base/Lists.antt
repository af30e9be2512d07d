-- ===== src/Base/Lists.antt =====
-- Lists measured, indexed and sliced by native numbers. A byte block in memory is such a list.
use Prim.Native.Nat.{ℕ, zero, suc, ◌+◌, ◌-◌, ◌≤◌, ◌<◌, min}
use mathlib.Core.Path.{◌≡◌, refl, ap, ap₂}
use mathlib.Core.List.{List, [], ◌∷◌, ◌++◌}
use native.Mathlib.Omega.{arith}
use libiocp.Base.Tests.{ltb, if◌then◌else◌}

module _ {ℓ} {A : Type ℓ} where
  abbrev pub length : List A → ℕ
  length [] = 0
  length (x ∷ xs) = suc (length xs)

  abbrev pub get_or : List A → ℕ → A → A
  get_or [] i d = d
  get_or (x ∷ xs) zero d = x
  get_or (x ∷ xs) (suc i) d = get_or xs i d

  abbrev pub take : ℕ → List A → List A
  take zero xs = []
  take (suc n) [] = []
  take (suc n) (x ∷ xs) = x ∷ take n xs

  abbrev pub drop : ℕ → List A → List A
  drop zero xs = xs
  drop (suc n) [] = []
  drop (suc n) (x ∷ xs) = drop n xs

  -- The list of `f 0`, …, `f (n - 1)`.
  abbrev pub tabulate : ℕ → (ℕ → A) → List A
  tabulate zero f = []
  tabulate (suc n) f = f 0 ∷ tabulate n (λ i. f (suc i))

module _ {ℓ} {A : Type ℓ} where
  abbrev pub replicate : ℕ → A → List A
  replicate zero x = []
  replicate (suc n) x = x ∷ replicate n x

  -- The block of `n` elements from index `off` on.
  abbrev pub slice : ℕ → ℕ → List A → List A
  slice off n xs = take n (drop off xs)

  pub length-append : (xs ys : List A) → length (xs ++ ys) ≡ length xs + length ys
  length-append [] ys = omega arith
  length-append (x ∷ xs) ys = omega (arith, length-append xs ys)

  pub length-take : (n : ℕ) (xs : List A) → length (take n xs) ≡ min n (length xs)
  length-take zero xs = omega arith
  length-take (suc n) [] = omega arith
  length-take (suc n) (x ∷ xs) = omega (arith, length-take n xs)

  pub length-drop : (n : ℕ) (xs : List A) → length (drop n xs) ≡ length xs - n
  length-drop zero xs = omega arith
  length-drop (suc n) [] = omega arith
  length-drop (suc n) (x ∷ xs) = omega (arith, length-drop n xs)

  pub length-tabulate : (n : ℕ) (f : ℕ → A) → length (tabulate n f) ≡ n
  length-tabulate zero f = refl
  length-tabulate (suc n) f = ap suc (length-tabulate n (λ i. f (suc i)))

  pub get_or-append :
      (xs ys : List A) (i : ℕ) (d : A)
      → get_or (xs ++ ys) i d
        ≡ (if ltb i (length xs) then get_or xs i d else get_or ys (i - length xs) d)
  get_or-append [] ys i d = ground arith
  get_or-append (x ∷ xs) ys zero d = ground arith
  get_or-append (x ∷ xs) ys (suc i) d = ground (arith, get_or-append xs ys i d)

  pub get_or-take :
      (n : ℕ) (xs : List A) (i : ℕ) (d : A)
      → get_or (take n xs) i d ≡ (if ltb i n then get_or xs i d else d)
  get_or-take zero xs i d = ground arith
  get_or-take (suc n) [] i d = ground arith
  get_or-take (suc n) (x ∷ xs) zero d = ground arith
  get_or-take (suc n) (x ∷ xs) (suc i) d = ground (arith, get_or-take n xs i d)

  pub get_or-drop :
      (n : ℕ) (xs : List A) (i : ℕ) (d : A) → get_or (drop n xs) i d ≡ get_or xs (n + i) d
  get_or-drop zero xs i d = ap (λ k. get_or xs k d) (omega arith)
  get_or-drop (suc n) [] i d = ground arith
  get_or-drop (suc n) (x ∷ xs) i d = ground (arith, get_or-drop n xs i d)

  pub get_or-tabulate :
      (n : ℕ) (f : ℕ → A) (i : ℕ) (d : A) → get_or (tabulate n f) i d ≡ (if ltb i n then f i else d)
  get_or-tabulate zero f i d = ground arith
  get_or-tabulate (suc n) f zero d = ground arith
  get_or-tabulate (suc n) f (suc i) d = ground (arith, get_or-tabulate n (λ j. f (suc j)) i d)

  -- Two lists of one length that agree at every index are equal.
  pub list_ext :
      (d : A) (xs ys : List A)
      → length xs ≡ length ys
      → ((i : ℕ) → i < length xs → get_or xs i d ≡ get_or ys i d)
      → xs ≡ ys
  list_ext d [] [] e h = refl
  list_ext d [] (y ∷ ys) e h = absurd (omega arith)
  list_ext d (x ∷ xs) [] e h = absurd (omega arith)
  list_ext d (x ∷ xs) (y ∷ ys) e h =
      ap₂ ◌∷◌ (h 0 (omega arith)) (list_ext d xs ys (omega arith) (λ i lt. h (suc i) (omega arith)))

module _ {A : Type 0} where
  -- `memcpy(buf + off, xs, length xs)`: the block at `off` is overwritten.
  unfoldable pub write : ℕ → List A → List A → List A
  write off xs buf = take off buf ++ (xs ++ drop (off + length xs) buf)

  pub length-write :
      (off : ℕ) (xs buf : List A)
      → off + length xs ≤ length buf
      → length (write off xs buf) ≡ length buf
  unfolding write
  length-write off xs buf h = omega (
    arith,
    length-append (take off buf) (xs ++ drop (off + length xs) buf),
    length-append xs (drop (off + length xs) buf),
    length-take off buf,
    length-drop (off + length xs) buf,
  )

  pub get_or-write :
      (off : ℕ) (xs buf : List A) (i : ℕ) (d : A)
      → off ≤ length buf
      → get_or (write off xs buf) i d ≡ (
          if ltb i off
          then get_or buf i d
          else if ltb i (off + length xs)
          then get_or xs (i - off) d
          else get_or buf i d)
  unfolding write
  get_or-write off xs buf i d h = ground (
    arith,
    length-take off buf,
    get_or-append (take off buf) (xs ++ drop (off + length xs) buf) i d,
    get_or-take off buf i d,
    get_or-append xs (drop (off + length xs) buf) (i - off) d,
    get_or-drop (off + length xs) buf (i - off - length xs) d,
    ap {B = A} (λ k. get_or buf k d) (back off (length xs) i),
  )
    where
      back : (a b j : ℕ) → a + b + (j - a - b) ≡ (if ltb j (a + b) then a + b else j)
      back a b j = ground arith

  pub length-slice : (off n : ℕ) (xs : List A) → off + n ≤ length xs → length (slice off n xs) ≡ n
  length-slice off n xs h = omega (arith, length-take n (drop off xs), length-drop off xs)

  pub get_or-slice :
      (off n : ℕ) (xs : List A) (i : ℕ) (d : A)
      → get_or (slice off n xs) i d ≡ (if ltb i n then get_or xs (off + i) d else d)
  get_or-slice off n xs i d =
      ground (arith, get_or-take n (drop off xs) i d, get_or-drop off xs i d)
