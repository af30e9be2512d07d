-- ===== src/Session/Address/Decimal.antt =====
-- Numbers in decimal, and their reader.
use mathlib.Core.Path.{subst}
use mathlib.Core.List.{append_assoc}
use native.Mathlib.Nat.{pow-suc}
use libiocp.Base.{
  ℕ, zero, suc, ◌+◌, ◌*◌, ◌/◌, ◌%◌, ◌^◌, ◌≤◌, ◌<◌, ◌≡◌, sym, ap, ◌∙◌, List, [], ◌∷◌, ◌++◌, length,
  arith, length-append, dec_lt,
}
use libiocp.Text.Formatting.{Zeroless, Zeroless-append}
use libiocp.Session.Address.{digits_up, read_numbers}

read_digit :
    (d value : ℕ) (rest : List ℕ)
    → d < 10
    → read_numbers ((b'0' + d) ∷ rest) value ≡ read_numbers rest (value * 10 + d)
unfolding read_numbers
read_digit d value rest lt = ground arith

-- A number and its decimal text.
pub data Decimal : ℕ → List ℕ → Type 0 where
  single : (n : ℕ) → n < 10 → Decimal n ((b'0' + n) ∷ [])
  longer :
      (n : ℕ) (front : List ℕ)
      → 10 ≤ n
      → Decimal (n / 10) front
      → Decimal n (front ++ (b'0' + n % 10) ∷ [])

-- The fuel is enough.
pub digits_up-Decimal : (fuel n : ℕ) → n ≤ fuel → Decimal n (digits_up fuel n)
unfolding digits_up
digits_up-Decimal zero n le = single n (omega arith)
digits_up-Decimal (suc fuel) n le = elim (dec_lt n 10) [
  | yes less ↦
      let e : digits_up (suc fuel) n ≡ (b'0' + n) ∷ [] = ground arith in
      subst (Decimal n) (sym e) (single n less)
  | no more ↦
      let e : digits_up (suc fuel) n ≡ digits_up fuel (n / 10) ++ (b'0' + n % 10) ∷ [] =
        ground arith in
      let rest = digits_up-Decimal fuel (n / 10) (omega arith) in
      subst (Decimal n) (sym e) (longer n _ (omega arith) rest)
]

-- Behind a number in decimal the reader has its value.
pub read_decimal :
    (n : ℕ) (t rest : List ℕ) → Decimal n t → read_numbers (t ++ rest) 0 ≡ read_numbers rest n
read_decimal _ _ rest (single n lt) =
    let v : 0 * 10 + n ≡ n = omega arith in read_digit n 0 rest lt ∙ ap (read_numbers rest) v
read_decimal _ _ rest (longer n front le d) =
    let v : n / 10 * 10 + n % 10 ≡ n = omega arith in
    ap (λ t. read_numbers t 0) (append_assoc front _ rest)
    ∙ read_decimal (n / 10) front _ d
    ∙ read_digit (n % 10) (n / 10) rest (omega arith)
    ∙ ap (read_numbers rest) v

pub Decimal-Zeroless : (n : ℕ) (t : List ℕ) → Decimal n t → Zeroless t
unfolding Zeroless
Decimal-Zeroless _ _ (single n lt) = (omega arith, tt)
Decimal-Zeroless _ _ (longer n front le d) =
    Zeroless-append front _ (Decimal-Zeroless (n / 10) front d) (omega arith, tt)

pub length-Decimal : (k n : ℕ) (t : List ℕ) → n < 10 ^ suc k → Decimal n t → length t ≤ suc k
length-Decimal k _ _ lt (single n _) = omega arith
length-Decimal zero _ _ lt (longer n front le d) = absurd (omega arith)
length-Decimal (suc k) _ _ lt (longer n front le d) = omega (
  arith,
  length-append front ((b'0' + n % 10) ∷ []),
  length-Decimal k (n / 10) front (omega (arith, pow-suc 10 (suc k))) d,
)
