-- ===== src/Queue/Tests.antt =====
-- queueT with one consumer and with two.
use libiocp.Base.{ℕ, ◌≡◌, refl, inl, true, false, [], ◌∷◌, ◌++◌, arith}
use libiocp.Queue.{Queue, put, get, empty}
use libiocp.Queue.Threads.{
  waiting, System, Step, puts, gets, start, settle, Reach, here, next, Inv, Reach-Inv,
}
use libiocp.Queue.Wake.{Returned, sleeper_returns}

abbrev two : Queue ℕ
two = record { count = 2; stop = false; items = 7 ∷ 8 ∷ []; not_empty = true }

abbrev halted : Queue ℕ
halted = record two { stop = true }

-- The consumer goes to sleep on the empty queue.
abbrev asleep : System ℕ
asleep = settle start 0 (get empty true)

abbrev fed : System ℕ
fed = record asleep { queue = (put asleep.queue 7).0; sent = asleep.sent ++ 7 ∷ [] }

fed-Reach : Reach 1 fed
unfolding start settle get empty put
fed-Reach = next (next here (gets 0 true (omega arith) refl)) (puts 7)

Reach-Inv_example : Inv fed
Reach-Inv_example = Reach-Inv fed-Reach

sleeper_returns_example : (fed.queue.not_empty ≡ true) × ((t : System ℕ) × Returned fed t)
unfolding start settle get empty put
sleeper_returns_example = sleeper_returns fed-Reach refl (inl (λ e. omega arith))

abbrev sleepers : System ℕ
sleepers = record {
  queue = record { count = 0; stop = false; items = []; not_empty = false };
  pc = λ _. waiting;
  sent = [];
  got = [];
}

abbrev stranded : System ℕ
stranded = record sleepers { queue = record (sleepers.queue) { stop = true } }

abbrev after_put : System ℕ
after_put = record stranded { queue = (put stranded.queue 7).0; sent = [] }

put_refused : Step 2 stranded after_put
unfolding put
put_refused = puts 7
