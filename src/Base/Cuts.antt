-- ===== src/Base/Cuts.antt =====
-- Lists cut in two, and put together again.
use Prim.Native.Nat.{ℕ, zero, suc, ◌+◌, ◌≤◌}
use mathlib.Core.Path.{◌≡◌, refl, sym, ap, ◌∙◌}
use mathlib.Core.List.{List, [], ◌∷◌, ◌++◌}
use native.Mathlib.Omega.{arith}
use libiocp.Base.Lists.{length, take, drop, write}

module _ {A : Type 0} where
  pub drop-append : (xs ys : List A) → drop (length xs) (xs ++ ys) ≡ ys
  drop-append [] ys = refl
  drop-append (x ∷ xs) ys = drop-append xs ys

  pub take-append : (xs ys : List A) → take (length xs) (xs ++ ys) ≡ xs
  take-append [] ys = refl
  take-append (x ∷ xs) ys = ap (◌∷◌ x) (take-append xs ys)

  pub take_all : (n : ℕ) (xs : List A) → length xs ≤ n → take n xs ≡ xs
  take_all zero [] h = refl
  take_all (suc n) [] h = refl
  take_all zero (x ∷ xs) h = absurd (omega arith)
  take_all (suc n) (x ∷ xs) h = ap (◌∷◌ x) (take_all n xs (omega arith))

  pub take-drop : (n : ℕ) (xs : List A) → take n xs ++ drop n xs ≡ xs
  take-drop zero xs = refl
  take-drop (suc n) [] = refl
  take-drop (suc n) (x ∷ xs) = ap (◌∷◌ x) (take-drop n xs)

  pub append_cancel : (xs ys zs : List A) → xs ++ ys ≡ xs ++ zs → ys ≡ zs
  append_cancel [] ys zs e = e
  append_cancel (x ∷ xs) ys zs e = append_cancel xs ys zs (cc)

  pub append_empty : (xs ys : List A) → xs ++ ys ≡ [] → xs ≡ []
  append_empty [] ys e = refl
  append_empty (x ∷ xs) ys e = cc

  -- Of two cuts of one list the shorter is a prefix of the longer.
  pub split_prefix :
      (xs ys zs ts : List A)
      → xs ++ ys ≡ zs ++ ts
      → length zs ≤ length xs
      → (tail : List A) × (xs ≡ zs ++ tail) × (tail ++ ys ≡ ts)
  split_prefix xs ys [] ts e h = (xs, refl, e)
  split_prefix [] ys (z ∷ zs) ts e h = absurd (omega arith)
  split_prefix (x ∷ xs) ys (z ∷ zs) ts e h =
      let (tail, front, back) = split_prefix xs ys zs ts (cc) (omega arith) in (tail, cc, back)

  -- What is written at the start of a block is read back.
  pub take-write : (bytes mem : List A) → take (length bytes) (write 0 bytes mem) ≡ bytes
  unfolding write
  take-write bytes mem = take-append bytes (drop (0 + length bytes) mem)

  pub last_same : (xs ys : List A) (x y : A) → xs ++ x ∷ [] ≡ ys ++ y ∷ [] → x ≡ y
  last_same [] [] x y e = cc
  last_same [] (z ∷ []) x y e = cc
  last_same [] (z ∷ w ∷ ys) x y e = cc
  last_same (z ∷ []) [] x y e = cc
  last_same (z ∷ w ∷ xs) [] x y e = cc
  last_same (z ∷ xs) (w ∷ ys) x y e = last_same xs ys x y (cc)

  drop-nil : (n : ℕ) → drop {A = A} n [] ≡ []
  drop-nil zero = refl
  drop-nil (suc n) = refl

  pub drop-drop : (n k : ℕ) (xs : List A) → drop n (drop k xs) ≡ drop (k + n) xs
  drop-drop n zero xs = let e : n ≡ 0 + n = omega arith in ap (λ j. drop j xs) e
  drop-drop n (suc k) [] = drop-nil n ∙ sym (drop-nil (suc k + n))
  drop-drop n (suc k) (x ∷ xs) =
      let e : suc (k + n) ≡ suc k + n = omega arith in
      drop-drop n k xs ∙ ap (λ j. drop j (x ∷ xs)) e

  pub drop_all : (n : ℕ) (xs : List A) → length xs ≤ n → drop n xs ≡ []
  drop_all zero [] h = refl
  drop_all (suc n) [] h = refl
  drop_all zero (x ∷ xs) h = absurd (omega arith)
  drop_all (suc n) (x ∷ xs) h = drop_all n xs (omega arith)

  pub take_front : (n : ℕ) (xs ys : List A) → n ≤ length xs → take n (xs ++ ys) ≡ take n xs
  take_front zero xs ys h = refl
  take_front (suc n) [] ys h = absurd (omega arith)
  take_front (suc n) (x ∷ xs) ys h = ap (◌∷◌ x) (take_front n xs ys (omega arith))

  pub drop_front : (n : ℕ) (xs ys : List A) → n ≤ length xs → drop n (xs ++ ys) ≡ drop n xs ++ ys
  drop_front zero xs ys h = refl
  drop_front (suc n) [] ys h = absurd (omega arith)
  drop_front (suc n) (x ∷ xs) ys h = drop_front n xs ys (omega arith)

  take-nil : (n : ℕ) → take {A = A} n [] ≡ []
  take-nil zero = refl
  take-nil (suc n) = refl

  pub take_add : (n k : ℕ) (xs : List A) → take (n + k) xs ≡ take n xs ++ take k (drop n xs)
  take_add zero k xs = let e : 0 + k ≡ k = omega arith in ap (λ j. take j xs) e
  take_add (suc n) zero [] = take-nil (suc n + 0)
  take_add (suc n) (suc k) [] = take-nil (suc n + suc k)
  take_add (suc n) k (x ∷ xs) =
      let e : suc n + k ≡ suc (n + k) = omega arith in
      ap (λ j. take j (x ∷ xs)) e ∙ ap (◌∷◌ x) (take_add n k xs)
