-- ===== src/Session/Commuting/Logs.antt =====
-- What one direction leaves in a log that both directions write.
use libiocp.Base.{
  ◌≡◌, refl, ap, ◌∙◌, Bool, true, false, List, [], ◌∷◌, ◌++◌, Bool-cases, inl, inr, if◌then◌else◌,
  arith,
}

unfoldable pub only {ℓ} : {A : Type ℓ} → (A → Bool) → List A → List A
only p [] = []
only p (x ∷ xs) = if p x then x ∷ only p xs else only p xs

pub only-append {ℓ} :
    {A : Type ℓ} (p : A → Bool) (xs ys : List A) → only p (xs ++ ys) ≡ only p xs ++ only p ys
unfolding only
only-append p [] ys = refl
only-append p (x ∷ xs) ys = ground (arith, only-append p xs ys)

-- A state that events change, each of which writes entries.
module _ {S E A : Type 0} (step : S → E → S) (f : S → E → List A) where
  unfoldable pub log : S → List E → List A
  log s [] = []
  log s (e ∷ es) = f s e ++ log (step s e) es

  unfoldable pub steps : S → List E → S
  steps s [] = s
  steps s (e ∷ es) = steps (step s e) es

  -- The events of one direction, which `d` tells, read and write a part of the state that `Same`
  -- compares; those of the other leave it alone. `p` tells whose entries are whose.
  module _ (d : E → Bool) (p : A → Bool) (Same : S → S → Type 0) (same_refl : (s : S) → Same s s)
      (keeps : (s t : S) (e : E) → d e ≡ false → Same s t → Same (step s e) t)
      (moves : (s t : S) (e : E) → d e ≡ true → Same s t → Same (step s e) (step t e))
      (own : (s : S) (e : E) → d e ≡ true → only p (f s e) ≡ f s e)
      (other : (s : S) (e : E) → d e ≡ false → only p (f s e) ≡ [])
      (reads : (s t : S) (e : E) → d e ≡ true → Same s t → f s e ≡ f t e) where
    log-Same : (s t : S) (es : List E) → Same s t → only p (log s es) ≡ log t (only d es)
    unfolding log only
    log-Same s t [] h = refl
    log-Same s t (e ∷ es) h = elim (Bool-cases (d e)) [
      | inl mine ↦ rw mine (
          only-append p (f s e) (log (step s e) es)
          ∙ ap (λ l. l ++ only p (log (step s e) es)) (own s e mine ∙ reads s t e mine h)
          ∙ ap (λ l. f t e ++ l) (log-Same (step s e) (step t e) es (moves s t e mine h)))
      | inr theirs ↦ rw theirs (
          only-append p (f s e) (log (step s e) es)
          ∙ ap (λ l. l ++ only p (log (step s e) es)) (other s e theirs)
          ∙ log-Same (step s e) t es (keeps s t e theirs h))
    ]

    -- The entries of one direction are those that its own events write without the others.
    pub only-log : (s : S) (es : List E) → only p (log s es) ≡ log s (only d es)
    only-log s es = log-Same s s es (same_refl s)
