-- ===== src/Utility/Bits.antt =====
-- `&` with a mask whose ones are its high bits.
use libiocp.Base.{
  ℕ, zero, suc, ◌+◌, ◌-◌, ◌*◌, ◌/◌, ◌%◌, ◌^◌, ◌≤◌, ◌<◌, min, ◌≡◌, refl, ap, ap₂, ◌∙◌, arith,
}
use Prim.Native.Nat.{bit_and, digits, bit_and-bitwise}
use native.Mathlib.Nat.{pow-suc, one-le-pow}

-- The digits of `a`, with `count` of them at most, against those of `b`.
abbrev common : (count a b : ℕ) → ℕ
common count a b = digits (λ _. 0) min count a b

-- A count that is large enough may be any other such.
common_enough : (i j a b : ℕ) → a ≤ i → a ≤ j → common i a b ≡ common j a b
common_enough (suc i) (suc j) (suc a) b p q =
    ap (λ c. c * 2 + min (suc a % 2) (b % 2))
      (common_enough i j (suc a / 2) (b / 2) (omega arith) (omega arith))
common_enough zero zero a b p q = refl
common_enough (suc i) (suc j) zero b p q = refl
common_enough zero (suc j) zero b p q = refl
common_enough (suc i) zero zero b p q = refl
common_enough zero (suc j) (suc a) b p q = absurd (omega arith)
common_enough (suc i) zero (suc a) b p q = absurd (omega arith)

-- The lowest digit, and the others.
lowest : (a b : ℕ) → bit_and a b ≡ bit_and (a / 2) (b / 2) * 2 + min (a % 2) (b % 2)
lowest zero b = omega (arith, bit_and-bitwise 0 b, bit_and-bitwise 0 (b / 2))
lowest (suc a) b = omega (
  arith,
  bit_and-bitwise (suc a) b,
  bit_and-bitwise (suc a / 2) (b / 2),
  common_enough a (suc a / 2) (suc a / 2) (b / 2) (omega arith) (omega arith),
)

-- Ones everywhere change nothing.
pub bit_and_ones : (k x : ℕ) → x < 2 ^ k → bit_and x (2 ^ k - 1) ≡ x
bit_and_ones zero x lt = omega (arith, bit_and-bitwise 0 0, ap (λ c. bit_and c 0) (zeroed x lt))
  where
    zeroed : (x : ℕ) → x < 2 ^ 0 → x ≡ 0
    zeroed x lt = omega arith
bit_and_ones (suc k) x lt =
    let halved : (2 ^ suc k - 1) / 2 ≡ 2 ^ k - 1 = omega (arith, pow-suc 2 k) in
    omega (
      arith,
      lowest x (2 ^ suc k - 1),
      pow-suc 2 k,
      one-le-pow k 2,
      ap (bit_and (x / 2)) halved,
      bit_and_ones k (x / 2) (omega (arith, pow-suc 2 k)),
    )

twice : (q k : ℕ) → q * 2 ^ suc k ≡ 2 * (q * 2 ^ k)
twice q k = omega (arith, ap (λ (t : ℕ). q * t) (pow-suc 2 k))

-- A mask that ends in `k` zeros takes the `k` lowest digits away.
pub bit_and_high :
    (k q r m : ℕ) → r < 2 ^ k → bit_and (q * 2 ^ k + r) (m * 2 ^ k) ≡ bit_and q m * 2 ^ k
bit_and_high zero q r m lt =
    let x : q * 2 ^ 0 + r ≡ q = omega arith in
    let y : m * 2 ^ 0 ≡ m = omega arith in ap₂ bit_and x y ∙ omega arith
bit_and_high (suc k) q r m lt =
    let x : (q * 2 ^ suc k + r) / 2 ≡ q * 2 ^ k + r / 2 = omega (arith, twice q k) in
    let y : m * 2 ^ suc k / 2 ≡ m * 2 ^ k = omega (arith, twice m k) in
    omega (
      arith,
      lowest (q * 2 ^ suc k + r) (m * 2 ^ suc k),
      twice m k,
      twice (bit_and q m) k,
      ap₂ bit_and x y,
      bit_and_high k q (r / 2) m (omega (arith, pow-suc 2 k)),
    )
