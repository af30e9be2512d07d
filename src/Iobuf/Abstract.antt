-- ===== src/Iobuf/Abstract.antt =====
-- Byte rings of one size up to the bytes that they hold, wherever head and trail stand.
use libiocp.Base.{
  ℕ, ◌<◌, ◌≡◌, refl, List, arith, length, get_or, tabulate, length-tabulate, get_or-tabulate,
}
use mathlib.Core.HLevel.{Σ_prop_path, Σ_set, prop→set}
use mathlib.Core.Equiv.{IsEquiv, Iso, iso_to_equiv}
use mathlib.Core.Quot
use mathlib.Core.Quot.{Quot, Quot-set}
use native.Mathlib.Bridge.{le_prop}
use libiocp.Iobuf.{Iobuf, length_used}
use libiocp.Iobuf.Valid.{IsValid, length_used-lt}
use libiocp.Iobuf.Contents.{contents, length-contents, byte_at_once, contents-eq}

pub record Ring (n : ℕ) : Type 0 where
  pub buffer : Iobuf
  pub valid : IsValid buffer
  pub sized : buffer.size ≡ n

module _ {n : ℕ} where
  abbrev pub SameContents : Ring n → Ring n → Type 0
  SameContents r s = contents r.buffer ≡ contents s.buffer

-- What a user of a ring can tell of it.
abbrev pub Seen : ℕ → Type 0
Seen n = Quot (SameContents {n = n})

abbrev pub Short : ℕ → Type 0
Short n = (xs : List ℕ) × (length xs < n)

pub Short-ext : {n : ℕ} (a b : Short n) → a.0 ≡ b.0 → a ≡ b
Short-ext a b h = Σ_prop_path (λ xs. le_prop) h

Short-set : {n : ℕ} → IsSet (Short n)
Short-set = Σ_set (hlevel) (λ xs. prop→set le_prop)

unfoldable pub held : {n : ℕ} → Ring n → Short n
held r =
    (contents r.buffer, omega (arith, length-contents r.buffer, length_used-lt r.valid, r.sized))

-- The bytes that a ring holds.
unfoldable pub bytes_of : {n : ℕ} → Seen n → Short n
unfolding Short-set held Short-ext
bytes_of = Quot.lift Short-set held (λ r s e. Short-ext (held r) (held s) e)

-- A ring with the bytes at the start of its storage.
abbrev laid_out : ℕ → List ℕ → Iobuf
laid_out n xs = record {
  buf = tabulate n (λ i. get_or xs i 0);
  size = n;
  head = 0;
  trail = length xs;
}

laid_out-IsValid : (n : ℕ) (xs : List ℕ) → length xs < n → IsValid (laid_out n xs)
laid_out-IsValid n xs h = record {
  storage = length-tabulate n _;
  head_in = omega arith;
  trail_in = h;
}

contents-laid_out : (n : ℕ) (xs : List ℕ) → length xs < n → contents (laid_out n xs) ≡ xs
unfolding length_used
contents-laid_out n xs h = contents-eq (laid_out n xs) xs (ground arith) λ i lt. ground (
  arith,
  byte_at_once (laid_out n xs) i (laid_out-IsValid n xs h),
  get_or-tabulate n (λ j. get_or xs j 0) i 0,
)

laid : {n : ℕ} → Short n → Ring n
laid {n = n} (xs, h) = record {
  buffer = laid_out n xs;
  valid = laid_out-IsValid n xs h;
  sized = refl;
}

-- The rings of `n` bytes, up to the bytes that they hold, are the lists of fewer than `n` bytes: each
-- such list is held by some ring, no ring holds more, and where head and trail stand does not count.
pub bytes_of-IsEquiv : (n : ℕ) → IsEquiv (bytes_of {n = n})
unfolding bytes_of Short-set held Short-ext laid
bytes_of-IsEquiv n = (iso_to_equiv seen_iso).1
  where
    seen_iso : Iso (Seen n) (Short n)
    seen_iso = record {
      fun = bytes_of;
      inv = λ s. Quot.mk (laid s);
      rinv = λ s. Short-ext _ _ (contents-laid_out n s.0 s.1);
      linv = Quot.ind (λ q. Quot-set _ _) (λ r. Quot.sound (contents-laid_out n _ (held r).1));
    }
