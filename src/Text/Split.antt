-- ===== src/Text/Split.antt =====
-- `split`: the text at the first separator.
use libiocp.Base.{
  ℕ, ◌≡◌, refl, ap, ◌∙◌, Bool, true, false, List, [], ◌∷◌, ◌++◌, Option, none, some, arith,
}
use libiocp.Text.{find_first, is, split}
use libiocp.Text.Find.{Never, At-le, At-take, At-behind, First, find_first-First}

pub is-eq : (c x : ℕ) → is c x ≡ true → x ≡ c
is-eq c x h = ground arith

-- The first `ch` stands between the two texts, or there is none.
abbrev pub Splits : (ch : ℕ) (s str1 str2 : List ℕ) → Bool → Type 0
Splits ch s str1 str2 true = (s ≡ str1 ++ ch ∷ str2) × Never (is ch) str1
Splits ch s str1 str2 false = (str1 ≡ s) × (str2 ≡ []) × Never (is ch) s

split_as :
    (s : List ℕ) (ch : ℕ) (o : Option ℕ)
    → find_first (is ch) s ≡ o
    → First (is ch) s o
    → (str1 : List ℕ) × (str2 : List ℕ) × (found : Bool) × (split s ch ≡ some (str1, str2, found))
      × Splits ch s str1 str2 found
unfolding split
split_as s ch none e n = (s, [], false, rw (e, split) refl, (refl, refl, n))
split_as s ch (some i) e (a, n) = (
  a.front,
  a.back,
  true,
  rw (e, split) (ground (arith, At-le a, At-take a, At-behind a)),
  (a.cut ∙ ap (λ c. a.front ++ c ∷ a.back) (is-eq ch a.x a.holds), n),
)

-- `split` never throws: it cuts the text at the first `ch`, which neither part has, or tells that
-- there is none and gives the whole text.
pub split_lem :
    (s : List ℕ) (ch : ℕ)
    → (str1 : List ℕ) × (str2 : List ℕ) × (found : Bool) × (split s ch ≡ some (str1, str2, found))
      × Splits ch s str1 str2 found
split_lem s ch = split_as s ch (find_first (is ch) s) refl (find_first-First (is ch) s)
