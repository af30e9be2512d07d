-- ===== src/Bounded/Tests.antt =====
-- A queue of at most one item, with a producer and a consumer.
use libiocp.Base.{ℕ, ◌≡◌, refl, inr, true, false, [], ◌∷◌, ◌++◌, arith}
use libiocp.Bounded.{Bounded, create, put, put_stored, get, get_taken}
use libiocp.Bounded.Threads.{
  Users, settle_put, settle_get, puts, gets, start, Reached, here, next, Sound, Reached-Sound,
  taken_in,
}
use libiocp.Bounded.Wait.{Ended, putter_ends}

-- Thread 0 puts 7, then finds the queue full and waits with 8.
abbrev stored : Users ℕ
stored = settle_put (start 1) 0 7 (put (start {A = ℕ} 1).queue 7)

abbrev full : Users ℕ
full = settle_put stored 0 8 (put stored.queue 8)

full-Reached : Reached 1 full
unfolding start create settle_put put put_stored
full-Reached = next (next here (puts 0 7 refl)) (puts 0 8 refl)

-- Thread 1 takes the item.
abbrev taken : Users ℕ
taken = settle_get full 1 (get full.queue)

taken-Reached : Reached 1 taken
unfolding start create settle_put put put_stored
taken-Reached = next full-Reached (gets 1 refl)

Reached-Sound_example : Sound full
Reached-Sound_example = Reached-Sound full-Reached

putter_ends_example :
    (t : Users ℕ) × Ended 0 taken t × (t.sent ≡ taken.sent ++ taken_in taken.queue 8)
unfolding start create settle_put put put_stored settle_get get get_taken
putter_ends_example = putter_ends taken-Reached 0 8 refl (inr (omega arith))

abbrev single : Bounded ℕ
single = record {
  bound = 4;
  count = 1;
  stop = false;
  items = 7 ∷ [];
  not_full = false;
  not_empty = true;
}
