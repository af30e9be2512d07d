-- ===== src/Listener/Limit.antt =====
-- How many clients the listener lets in.
use libiocp.Base.{
  ℕ, zero, suc, ◌-◌, ◌≤◌, ◌≡◌, ◌⊎◌, inl, inr, refl, ap, ◌∙◌, Bool, true, false, List, [], ◌∷◌,
  arith, length, ℤ, pos, negsuc, Bool-cases, ◌||◌,
}
use libiocp.Listener.{
  Turn, Accept, accepted, refused, TurnEnd, quits, goes_on, accept_turn, listener_turn, listen_loop,
  Listener, listener_loop, is_zero,
}

-- With room for `n` clients, of which some have joined, the rest of the room is left.
abbrev pub Counted : ℕ → Bool × ℤ × List ℕ → Type 0
Counted n (ended, left, joined) = (length joined ≤ n) × (left ≡ pos (n - length joined))

-- What a turn can do to a limit of `n`.
abbrev TurnOf : ℕ → TurnEnd → Type 0
TurnOf n e =
    (e ≡ quits)
    ⊎ ((e ≡ goes_on (pos n) [])
        ⊎ ((m : ℕ) × (client : ℕ) × (n ≡ suc m) × (e ≡ goes_on (pos m) (client ∷ []))))

accept_turn-TurnOf : (n : ℕ) (a : Accept) (joins : Bool) → TurnOf n (accept_turn (pos n) a joins)
unfolding accept_turn
accept_turn-TurnOf n (refused err) joins = ground arith
accept_turn-TurnOf n (accepted client) false = ground arith
accept_turn-TurnOf zero (accepted client) true = inr (inl refl)
accept_turn-TurnOf (suc m) (accepted client) true = inr (inr (m, client, refl, refl))

listener_turn-TurnOf : (n : ℕ) (t : Turn) → TurnOf n (listener_turn (pos n) t)
unfolding listener_turn
listener_turn-TurnOf n t = elim (Bool-cases (t.stop || is_zero (pos n))) [
  | inl e ↦ inl (rw e refl)
  | inr e ↦ rw e (accept_turn-TurnOf n t.accept t.joins)
]

listen_loop-Counted : (n : ℕ) (ts : List Turn) → Counted n (listen_loop (pos n) ts)
unfolding listen_loop
listen_loop-Counted n [] = (omega arith, ap pos (omega arith))
listen_loop-Counted n (t ∷ ts) = elim (listener_turn-TurnOf n t) [
  | inl e ↦ rw (e, listen_loop) (omega arith, ap pos (omega arith))
  | inr (inl e) ↦ rw (e, listen_loop) (listen_loop-Counted n ts)
  | inr (inr (m, client, e, k)) ↦
      let (le, left) = listen_loop-Counted m ts in
      rw (k, e, listen_loop) (omega (arith, le), left ∙ ap pos (omega arith))
]

-- A listener made with the limit `n` never lets more than `n` clients join, and its limit is what
-- is left of `n`, whatever `accept` and `session_join` answer.
pub listener_loop_counted :
    (l : Listener) (n : ℕ) (ts : List Turn)
    → l.session_limit ≡ pos n
    → let (_, m, joined) = listener_loop l ts in
      (length joined ≤ n) × (m.session_limit ≡ pos (n - length joined))
unfolding listener_loop
listener_loop_counted l n ts e = rw e (listen_loop-Counted n ts)

accept_turn-negative :
    (n : ℕ) (a : Accept) (joins : Bool)
    → (accept_turn (negsuc n) a joins ≡ quits)
      ⊎ (accept_turn (negsuc n) a joins ≡ goes_on (negsuc n) [])
unfolding accept_turn
accept_turn-negative n (refused err) joins = ground arith
accept_turn-negative n (accepted client) joins = inr refl

negative_loop :
    (n : ℕ) (ts : List Turn)
    → let (_, left, joined) = listen_loop (negsuc n) ts in (left ≡ negsuc n) × (joined ≡ [])
unfolding listen_loop listener_turn
negative_loop n [] = (refl, refl)
negative_loop n (t ∷ ts) = elim (Bool-cases t.stop) [
  | inl e ↦ rw (e, listen_loop) (refl, refl)
  | inr e ↦ elim (accept_turn-negative n t.accept t.joins) [
    | inl k ↦ rw (e, k, listen_loop) (refl, refl)
    | inr k ↦ rw (e, k, listen_loop) (negative_loop n ts)
  ]
]

-- A listener made with a limit of -2 or less lets no client join, whatever the turns are.
pub listener_loop_negative :
    (l : Listener) (n : ℕ) (ts : List Turn)
    → l.session_limit ≡ negsuc (suc n)
    → let (_, m, joined) = listener_loop l ts in (joined ≡ []) × (m.session_limit ≡ l.session_limit)
unfolding listener_loop
listener_loop_negative l n ts e =
    let (left, none) = negative_loop (suc n) ts in rw (e, listener_loop) (none, left)
