-- ===== src/Reference/Balance.antt =====
-- When a counted object is destroyed.
use libiocp.Base.{ℕ, suc, ◌+◌, ◌≡◌, refl, ap, ◌∙◌, inc, List, [], ◌∷◌, ◌++◌, pos}
use libiocp.Reference.{Counted, ref, deref}

-- A holder takes a reference, or gives one back.
pub data Use : Type 0 where
  takes gives : Use

pub use_all : Counted → List Use → Counted
use_all c [] = c
use_all c (takes ∷ us) = use_all (ref c).0 us
use_all c (gives ∷ us) = use_all (deref c).0 us

-- How many references are held after the uses, if nobody gives back what is not held.
pub data Held : ℕ → List Use → ℕ → Type 0 where
  none_left : (n : ℕ) → Held n [] n
  take_one : {n k : ℕ} {us : List Use} → Held (suc n) us k → Held n (takes ∷ us) k
  give_one : {n k : ℕ} {us : List Use} → Held (suc n) us k → Held (suc (suc n)) (gives ∷ us) k

deref-more :
    (c : Counted) (n : ℕ)
    → c.refs ≡ pos (suc (suc n))
    → ((deref c).0.refs ≡ pos (suc n)) × ((deref c).0.destroyed ≡ c.destroyed)
unfolding deref
deref-more c n e = rw e (refl, refl)

use_all-Held :
    {n k : ℕ} {us : List Use} (c : Counted)
    → c.refs ≡ pos n
    → Held n us k
    → ((use_all c us).refs ≡ pos k) × ((use_all c us).destroyed ≡ c.destroyed)
unfolding use_all ref deref
use_all-Held c e (none_left n) = (e, refl)
use_all-Held c e (take_one h) = use_all-Held (ref c).0 (ap inc e) h
use_all-Held c e (give_one h) =
    let (left, kept) = deref-more c _ e in
    let (k, same) = use_all-Held (deref c).0 left h in (k, same ∙ kept)

use_all-append : (c : Counted) (us vs : List Use) → use_all c (us ++ vs) ≡ use_all (use_all c us) vs
unfolding use_all
use_all-append c [] vs = refl
use_all-append c (takes ∷ us) vs = use_all-append (ref c).0 us vs
use_all-append c (gives ∷ us) vs = use_all-append (deref c).0 us vs

deref-last : (c : Counted) → c.refs ≡ pos 1 → (deref c).0.destroyed ≡ c.destroyed + 1
unfolding deref
deref-last c e = rw e refl

-- An object whose holders give back only what they hold is destroyed exactly when the last of them
-- does so, and once.
pub destroyed_last :
    (c : Counted) (n : ℕ) (us : List Use)
    → c.refs ≡ pos n
    → Held n us 1
    → ((use_all c us).destroyed ≡ c.destroyed)
      × ((use_all c (us ++ gives ∷ [])).destroyed ≡ c.destroyed + 1)
unfolding use_all
destroyed_last c n us e h =
    let (one, kept) = use_all-Held c e h in
    (
      kept,
      ap Counted.destroyed (use_all-append c us (gives ∷ []))
          ∙ deref-last (use_all c us) one
          ∙ ap (λ j. j + 1) kept,
    )
