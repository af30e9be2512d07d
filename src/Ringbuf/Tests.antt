-- ===== src/Ringbuf/Tests.antt =====
-- Rings of three slots.
use libiocp.Base.{◌≡◌, ◌++◌, inr, ℕ, refl, true, false, [], ◌∷◌, arith}
use libiocp.Ringbuf.{Ring, used, put, put_slot, get, init}
use libiocp.Ringbuf.Threads.Wait.{Ended, Ready, for_item, sends, obtains, waiter_ends}
use libiocp.Ringbuf.Threads.{Sharing, start, end_put, end_get, Shares, here, next, gets, puts}
use libiocp.Ringbuf.Threads.Sound.{Sound, Shares-Sound}

-- The item 7 in the last slot.
abbrev ring : Ring ℕ
ring = record {
  buf = 0 ∷ 0 ∷ 7 ∷ [];
  first = 0;
  last = 1;
  n = 3;
  stop = false;
  not_full = false;
  not_empty = true;
}

-- One thread puts the item 9 on a fresh ring of two places, while another waits for it.
abbrev fresh : Sharing ℕ
fresh = start 0 ring 2 (0 ∷ 0 ∷ 0 ∷ [])

abbrev waiting : Sharing ℕ
waiting = end_get fresh 1 (get 0 fresh.ring true)

abbrev stored : Sharing ℕ
stored = end_put waiting 0 9 (put 0 waiting.ring 9 false)

stored-Shares : Shares 0 ring 2 (0 ∷ 0 ∷ 0 ∷ []) stored
unfolding start end_get get used init
stored-Shares = next (next here (gets 1 true refl)) (puts 0 9 false refl)

Shares-Sound_example : Sound 0 stored
Shares-Sound_example = Shares-Sound 0 refl stored-Shares

-- The item is there, and the waiting thread can have it.
ready : Ready 0 stored 1
unfolding start end_get end_put get put put_slot used init
ready = for_item refl (inr (ground arith))

waiter_ends_example :
    (t : Sharing ℕ) × Ended 0 1 stored t
    × (t.sent ≡ stored.sent ++ sends 0 stored 1 ready)
    × (t.got ≡ stored.got ++ obtains 0 stored 1 ready)
waiter_ends_example = waiter_ends 0 refl stored-Shares 1 ready
