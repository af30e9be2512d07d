-- ===== src/Thread/Running.antt =====
-- What a thread runs, and at which priority.
use libiocp.Base.{ℕ, zero, suc, ◌+◌, ◌-◌, ◌≤◌, ◌≡◌, refl, arith, ℤ, pos, negsuc, min}
use libiocp.Thread.{
  Thread, Created, run, run_func, run_object, call_object, call_func, call_virtual, run_loop,
  SystemPriority, set_priority, priority_idle, priority_lowest, priority_below_normal,
  priority_normal, priority_above_normal, priority_highest, priority_time_critical,
}

-- The new thread calls what the last `run` was given, and nothing that an earlier one has left; the
-- result tells whether there is a new thread.
pub run_loop-run :
    (t : Thread) (f p : ℕ) (c : Created)
    → (run_loop (run t p c).0 ≡ call_virtual)
      × (run_loop (run_func t f p c).0 ≡ call_func f p)
      × (run_loop (run_object t f p c).0 ≡ call_object f p)
unfolding run_loop run run_func run_object
run_loop-run t f p c = (refl, refl, refl)

-- The order of the system's priorities.
abbrev pub rank : SystemPriority → ℕ
rank priority_idle = 0
rank priority_lowest = 1
rank priority_below_normal = 2
rank priority_normal = 3
rank priority_above_normal = 4
rank priority_highest = 5
rank priority_time_critical = 6

abbrev pub ◌≤ℤ◌ : ℤ → ℤ → Type 0

infix 50 ◌≤ℤ◌
pos a ≤ℤ pos b = a ≤ b
negsuc a ≤ℤ pos b = Unit
pos a ≤ℤ negsuc b = ⊥
negsuc a ≤ℤ negsuc b = b ≤ a

-- The rank by the distance from the normal priority.
ranked : ℤ → ℕ
ranked (pos n) = 3 + min 3 n
ranked (negsuc n) = 2 - min 2 n

rank-set_priority : (p : ℤ) → rank (set_priority p) ≡ ranked p
unfolding set_priority ranked
rank-set_priority (pos zero) = refl
rank-set_priority (pos (suc zero)) = refl
rank-set_priority (pos (suc (suc zero))) = refl
rank-set_priority (pos (suc (suc (suc n)))) = ground arith
rank-set_priority (negsuc zero) = refl
rank-set_priority (negsuc (suc zero)) = refl
rank-set_priority (negsuc (suc (suc n))) = ground arith

ranked_mono : (p q : ℤ) → p ≤ℤ q → ranked p ≤ ranked q
unfolding ranked
ranked_mono (pos a) (pos b) h = omega arith
ranked_mono (negsuc a) (pos b) h = omega arith
ranked_mono (pos a) (negsuc b) h = elim h [ ]
ranked_mono (negsuc a) (negsuc b) h = omega arith

-- A thread of no lower priority gets no lower priority from the system.
pub set_priority_mono : (p q : ℤ) → p ≤ℤ q → rank (set_priority p) ≤ rank (set_priority q)
set_priority_mono p q h = omega (arith, rank-set_priority p, rank-set_priority q, ranked_mono p q h)
