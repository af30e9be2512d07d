-- ===== src/Text/Trim.antt =====
-- What the trims cut off.
use mathlib.Core.List.{append-nil, append_assoc}
use libiocp.Base.{
  ℕ, ◌+◌, ◌-◌, ◌≤◌, ◌≡◌, ◌≢◌, ◌⊎◌, inl, inr, refl, sym, ap, ap₂, ◌∙◌, true, List, [], ◌∷◌, ◌++◌,
  Option, none, some, arith, length, take, drop, dec_le, length-append, take-append, split_prefix,
  last_same,
}
use libiocp.Text.{find_first, find_last, is_not, trim_left, trim, substr, substr_len, or_end}
use libiocp.Text.Find.{
  Never, Never-mid, At, At-Never, At-le, At-drop, First, Last, find_first-First, find_last-Last,
}

-- Only `ch` has been cut off, and all of it on both sides.
pub record Trimmed (ch : ℕ) (s t : List ℕ) : Type 0 where
  pub left : List ℕ
  pub right : List ℕ
  pub cut : s ≡ left ++ (t ++ right)
  pub blank_left : Never (is_not ch) left
  pub blank_right : Never (is_not ch) right
  pub starts : (x : ℕ) (rest : List ℕ) → t ≡ x ∷ rest → x ≢ ch
  pub ends : (rest : List ℕ) (x : ℕ) → t ≡ rest ++ x ∷ [] → x ≢ ch

is_not-ne : (ch x : ℕ) → is_not ch x ≡ true → x ≢ ch
is_not-ne ch x h e = ground arith

module _ (ch : ℕ) {s : List ℕ} {i j : ℕ} (a : At (is_not ch) s i) (b : At (is_not ch) s j) where
  -- The core is `tail ++ b.x ∷ []`.
  core :
      Never (is_not ch) a.front
      → Never (is_not ch) b.back
      → (tail : List ℕ) → b.front ≡ a.front ++ tail
      → tail ++ b.x ∷ b.back ≡ a.x ∷ a.back
      → (substr_len s i (j - i + 1) ≡ some (tail ++ b.x ∷ [])) × Trimmed ch s (tail ++ b.x ∷ [])
  core left right tail front back = (
    ground (arith, At-le a, taken),
    record {
      left = a.front;
      right = b.back;
      cut = a.cut ∙ ap (◌++◌ a.front) (sym back ∙ sym whole);
      blank_left = left;
      blank_right = right;
      starts = λ x rest e. is_not-ne ch x (rw (← first x rest e) a.holds);
      ends = λ rest x e. is_not-ne ch x (rw (← last_same tail rest b.x x e) b.holds);
    },
  )
    where
      whole : (tail ++ b.x ∷ []) ++ b.back ≡ tail ++ b.x ∷ b.back
      whole = append_assoc tail (b.x ∷ []) b.back

      first : (x : ℕ) (rest : List ℕ) → tail ++ b.x ∷ [] ≡ x ∷ rest → a.x ≡ x
      first x rest e =
          let k : a.x ∷ a.back ≡ x ∷ (rest ++ b.back) =
            sym back ∙ sym whole ∙ ap (λ xs. xs ++ b.back) e in
          cc

      count : j - i + 1 ≡ length (tail ++ b.x ∷ [])
      count = omega (
        arith,
        a.place,
        b.place,
        ap length front,
        length-append a.front tail,
        length-append tail (b.x ∷ []),
      )

      taken : take (j - i + 1) (drop i s) ≡ tail ++ b.x ∷ []
      taken =
          ap₂ take count (At-drop a ∙ sym back ∙ sym whole) ∙ take-append (tail ++ b.x ∷ []) b.back

  -- The last place cannot stand before the first.
  in_order : Never (is_not ch) a.front → length a.front ≤ length b.front
  in_order left = elim (dec_le (length a.front) (length b.front)) [
    | yes le ↦ le
    | no gt ↦
        let (tail, front, back) =
          split_prefix a.front (a.x ∷ a.back) b.front (b.x ∷ b.back) (sym a.cut ∙ b.cut)
            (omega arith) in
        absurd (clash tail front back gt)
  ]
    where
      clash :
          (tail : List ℕ)
          → a.front ≡ b.front ++ tail
          → tail ++ a.x ∷ a.back ≡ b.x ∷ b.back
          → ¬ (length a.front ≤ length b.front)
          → ⊥
      clash [] e k gt = gt (omega (arith, ap length e, length-append b.front []))
      clash (z ∷ tail) e k gt =
          let same : z ≡ b.x = cc in
          cc (Never-mid (is_not ch) b.front z tail (rw (← e) left), same, b.holds)

blank-Trimmed : (ch : ℕ) (s : List ℕ) → Never (is_not ch) s → Trimmed ch s []
blank-Trimmed ch s n = record {
  left = s;
  right = [];
  cut = sym (append-nil s);
  blank_left = n;
  blank_right = tt;
  starts = λ x rest e. cc;
  ends = λ rest x e. absurd (nil_ends rest x e);
}
  where
    nil_ends : (rest : List ℕ) (x : ℕ) → [] ≡ rest ++ x ∷ [] → ⊥
    nil_ends [] x e = cc
    nil_ends (y ∷ rest) x e = cc

trim_as :
    (ch : ℕ) (s : List ℕ) (head last : Option ℕ)
    → First (is_not ch) s head
    → Last (is_not ch) s last
    → (t : List ℕ) × (elim head as (λ (o : Option ℕ). Option (List ℕ)) [
      | none ↦ some []
      | some i ↦ substr_len s i (or_end s last - i + 1)
    ]
        ≡ some t)
      × Trimmed ch s t
trim_as ch s none last n l = ([], refl, blank-Trimmed ch s n)
trim_as ch s (some i) none (a, n) l = absurd (At-Never a l)
trim_as ch s (some i) (some j) (a, left) (b, right) =
    let (tail, front, back) =
      split_prefix b.front (b.x ∷ b.back) a.front (a.x ∷ a.back) (sym b.cut ∙ a.cut)
        (in_order ch a b left) in
    let (shown, cut) = core ch a b left right tail front back in (tail ++ b.x ∷ [], shown, cut)

-- `trim` never throws, and takes exactly the leading and the trailing `ch` off.
pub trim_lem : (s : List ℕ) (ch : ℕ) → (t : List ℕ) × (trim s ch ≡ some t) × Trimmed ch s t
unfolding trim
trim_lem s ch =
    trim_as ch s (find_first (is_not ch) s) (find_last (is_not ch) s)
      (find_first-First (is_not ch) s) (find_last-Last (is_not ch) s)

trim_left_as :
    (ch : ℕ) (s : List ℕ) (head : Option ℕ)
    → First (is_not ch) s head
    → ((elim head as (λ (o : Option ℕ). Option (List ℕ)) [ none ↦ none | some off ↦ substr s off ]
          ≡ none)
        × Never (is_not ch) s)
      ⊎ ((left : List ℕ) × (x : ℕ) × (rest : List ℕ) × (elim head
              as (λ (o : Option ℕ). Option (List ℕ)) [ none ↦ none | some off ↦ substr s off ]
            ≡ some (x ∷ rest))
          × (s ≡ left ++ x ∷ rest)
          × Never (is_not ch) left
          × (x ≢ ch))
trim_left_as ch s none n = inl (refl, n)
trim_left_as ch s (some i) (a, n) =
    inr
      (a.front, a.x, a.back, ground (arith, At-le a, At-drop a), a.cut, n, is_not-ne ch a.x a.holds)

-- `trim_left` throws on a text of nothing but `ch`, the empty text included; of any other text it
-- takes exactly the leading `ch` off.
pub trim_left_lem :
    (s : List ℕ) (ch : ℕ)
    → ((trim_left s ch ≡ none) × Never (is_not ch) s)
      ⊎ ((left : List ℕ) × (x : ℕ) × (rest : List ℕ) × (trim_left s ch ≡ some (x ∷ rest))
          × (s ≡ left ++ x ∷ rest)
          × Never (is_not ch) left
          × (x ≢ ch))
unfolding trim_left
trim_left_lem s ch = trim_left_as ch s (find_first (is_not ch) s) (find_first-First (is_not ch) s)
