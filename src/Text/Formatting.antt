-- ===== src/Text/Formatting.antt =====
-- Texts that `format` leaves whole.
use libiocp.Base.{ℕ, ◌<◌, ◌≡◌, refl, List, [], ◌∷◌, ◌++◌, some, length, arith}
use libiocp.Text.{format, until_zero}

-- No character ends the text early.
unfoldable pub Zeroless : List ℕ → Type 0
Zeroless [] = Unit
Zeroless (x ∷ xs) = (0 < x) × Zeroless xs

pub Zeroless-append : (xs ys : List ℕ) → Zeroless xs → Zeroless ys → Zeroless (xs ++ ys)
unfolding Zeroless
Zeroless-append [] ys u v = v
Zeroless-append (x ∷ xs) ys (p, u) v = (p, Zeroless-append xs ys u v)

until_zero_whole : (xs : List ℕ) → Zeroless xs → until_zero xs ≡ xs
unfolding Zeroless
until_zero_whole [] u = refl
until_zero_whole (x ∷ xs) (p, u) = ground (arith, until_zero_whole xs u)

pub format_whole : (xs : List ℕ) → Zeroless xs → length xs < 1024 → format xs ≡ some xs
unfolding format
format_whole xs u lt = ground (arith, until_zero_whole xs u)
