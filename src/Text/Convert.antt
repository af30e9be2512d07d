-- ===== src/Text/Convert.antt =====
-- inc/sglib/sglib_string.h: convertT and to_string, over the streams of the C++ library: what `>>`
-- reads from a text, and what `<<` writes, are arguments, and `none` is a stream that fails.
use libiocp.Base.{◌≡◌, Bool, true, false, List, ℕ, Option, none, some, arith}

module _ {A : Type 0} where
  unfoldable pub convert : (extract : List ℕ → Option A) → List ℕ → (failed : A) → A
  convert extract text failed = elim (extract text) [ none ↦ failed | some ret ↦ ret ]

  -- The form that tells by its second result whether it has failed, and returns 0 then.
  unfoldable pub convert_flagged : (extract : List ℕ → Option A) → (nought : A) → List ℕ → A × Bool
  convert_flagged extract nought text = elim (extract text) [
    | none ↦ (nought, true)
    | some ret ↦ (ret, false)
  ]

  unfoldable pub to_string : (insert : A → Option (List ℕ)) → A → (dft : List ℕ) → List ℕ
  to_string insert t dft = elim (insert t) [ none ↦ dft | some text ↦ text ]

  -- Both forms give back a value whose text the streams can write and read.
  convert-to_string :
      (extract : List ℕ → Option A) (insert : A → Option (List ℕ)) (t failed nought : A)
      (text dft : List ℕ)
      → insert t ≡ some text
      → extract text ≡ some t
      → (convert extract (to_string insert t dft) failed ≡ t)
        × (convert_flagged extract nought (to_string insert t dft) ≡ (t, false))
  unfolding convert convert_flagged to_string
  convert-to_string extract insert t failed nought text dft e f = (ground arith, ground arith)
