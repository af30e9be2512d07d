-- ===== src/Text/Find.antt =====
-- Where the searches stop.
use mathlib.Core.List.{append_assoc}
use libiocp.Base.{
  ℕ, suc, ◌+◌, ◌<◌, ◌≡◌, refl, sym, ap, ap₂, ◌∙◌, Bool, true, false, List, [], ◌∷◌, ◌++◌, Option,
  none, some, arith, length, take, drop, length-append, take-append, drop-append, if◌then◌else◌,
}
use libiocp.Text.{find_first, find_last}

-- The test holds nowhere.
abbrev pub Never : (ℕ → Bool) → List ℕ → Type 0
Never p [] = Unit {0}
Never p (x ∷ xs) = (p x ≡ false) × Never p xs

pub Never-append : (p : ℕ → Bool) (xs ys : List ℕ) → Never p xs → Never p ys → Never p (xs ++ ys)
Never-append p [] ys a b = b
Never-append p (x ∷ xs) ys (h, a) b = (h, Never-append p xs ys a b)

-- The text at a place where the test holds; the place is the first one if the test holds nowhere in
-- `front`, and the last one if it holds nowhere in `back`.
pub record At (p : ℕ → Bool) (s : List ℕ) (i : ℕ) : Type 0 where
  pub front : List ℕ
  pub x : ℕ
  pub back : List ℕ
  pub cut : s ≡ front ++ x ∷ back
  pub place : i ≡ length front
  pub holds : p x ≡ true

pub Never-mid :
    (p : ℕ → Bool) (xs : List ℕ) (x : ℕ) (ys : List ℕ) → Never p (xs ++ x ∷ ys) → p x ≡ false
Never-mid p [] x ys (h, n) = h
Never-mid p (z ∷ xs) x ys (h, n) = Never-mid p xs x ys n

pub At-Never : {p : ℕ → Bool} {s : List ℕ} {i : ℕ} → At p s i → Never p s → ⊥
At-Never {p} a n = cc (a.holds, Never-mid p a.front a.x a.back (rw (← a.cut) n))

pub At-le : {p : ℕ → Bool} {s : List ℕ} {i : ℕ} → At p s i → i < length s
At-le a = omega (arith, a.place, ap length a.cut, length-append a.front (a.x ∷ a.back))

pub At-drop : {p : ℕ → Bool} {s : List ℕ} {i : ℕ} (a : At p s i) → drop i s ≡ a.x ∷ a.back
At-drop a = ap₂ drop a.place a.cut ∙ drop-append a.front (a.x ∷ a.back)

pub At-take : {p : ℕ → Bool} {s : List ℕ} {i : ℕ} (a : At p s i) → take i s ≡ a.front
At-take a = ap₂ take a.place a.cut ∙ take-append a.front (a.x ∷ a.back)

pub At-upto :
    {p : ℕ → Bool} {s : List ℕ} {i : ℕ} (a : At p s i) → take (i + 1) s ≡ a.front ++ a.x ∷ []
At-upto {i = i} a =
    let e : i + 1 ≡ length (a.front ++ a.x ∷ []) =
      omega (arith, a.place, length-append a.front (a.x ∷ [])) in
    ap₂ take e (a.cut ∙ sym (append_assoc a.front (a.x ∷ []) a.back))
    ∙ take-append (a.front ++ a.x ∷ []) a.back

pub At-behind : {p : ℕ → Bool} {s : List ℕ} {i : ℕ} (a : At p s i) → drop (i + 1) s ≡ a.back
At-behind {i = i} a =
    let e : i + 1 ≡ length (a.front ++ a.x ∷ []) =
      omega (arith, a.place, length-append a.front (a.x ∷ [])) in
    ap₂ drop e (a.cut ∙ sym (append_assoc a.front (a.x ∷ []) a.back))
    ∙ drop-append (a.front ++ a.x ∷ []) a.back

abbrev pub First : (ℕ → Bool) → List ℕ → Option ℕ → Type 0
First p s none = Never p s
First p s (some i) = (a : At p s i) × Never p a.front

abbrev pub Last : (ℕ → Bool) → List ℕ → Option ℕ → Type 0
Last p s none = Never p s
Last p s (some i) = (a : At p s i) × Never p a.back

abbrev starts : (p : ℕ → Bool) (x : ℕ) (xs : List ℕ) → p x ≡ true → At p (x ∷ xs) 0
starts p x xs e = record { front = []; x = x; back = xs; cut = refl; place = refl; holds = e }

abbrev shifts : (p : ℕ → Bool) (x i : ℕ) (xs : List ℕ) → At p xs i → At p (x ∷ xs) (suc i)
shifts p x i xs a = record {
  front = x ∷ a.front;
  x = a.x;
  back = a.back;
  cut = ap (◌∷◌ x) a.cut;
  place = ap suc a.place;
  holds = a.holds;
}

First-cons :
    (p : ℕ → Bool) (x : ℕ) (xs : List ℕ) (b : Bool) (o : Option ℕ)
    → p x ≡ b
    → First p xs o
    → First p (x ∷ xs) (if b then some 0 else elim o [ none ↦ none | some i ↦ some (suc i) ])
First-cons p x xs true o e f = (starts p x xs e, tt)
First-cons p x xs false none e f = (e, f)
First-cons p x xs false (some i) e (a, f) = (shifts p x i xs a, (e, f))

pub find_first-First : (p : ℕ → Bool) (s : List ℕ) → First p s (find_first p s)
unfolding find_first
find_first-First p [] = tt
find_first-First p (x ∷ xs) = First-cons p x xs (p x) (find_first p xs) refl (find_first-First p xs)

Last-cons :
    (p : ℕ → Bool) (x : ℕ) (xs : List ℕ) (b : Bool) (o : Option ℕ)
    → p x ≡ b
    → Last p xs o
    → Last p (x ∷ xs) (elim o [ some i ↦ some (suc i) | none ↦ (if b then some 0 else none) ])
Last-cons p x xs true none e f = (starts p x xs e, f)
Last-cons p x xs false none e f = (e, f)
Last-cons p x xs b (some i) e (a, f) = (shifts p x i xs a, f)

pub find_last-Last : (p : ℕ → Bool) (s : List ℕ) → Last p s (find_last p s)
unfolding find_last
find_last-Last p [] = tt
find_last-Last p (x ∷ xs) = Last-cons p x xs (p x) (find_last p xs) refl (find_last-Last p xs)
