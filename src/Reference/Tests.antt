-- ===== src/Reference/Tests.antt =====
-- An object with two holders.
use libiocp.Base.{arith, ◌≡◌, refl, none, some}
use libiocp.Reference.{ref, threadref_dec, threadref_create, singleton_create, get_singleton}
use libiocp.Reference.Threads.{
  Holding, made, give, HoldReach, here, next, takes, gives, Counts, HoldReach-Counts,
}

-- The maker takes a second reference, and both are given back.
abbrev one_left : Holding
unfolding made threadref_create ref give threadref_dec
one_left = give (record made { counted = (ref made.counted).0; holders = 2 })

one_left-HoldReach : HoldReach one_left
unfolding made threadref_create ref give threadref_dec
one_left-HoldReach = next (next here (takes (omega arith))) (gives (omega arith))

HoldReach-Counts_example : Counts one_left
HoldReach-Counts_example = HoldReach-Counts one_left-HoldReach

singleton_runs : get_singleton (singleton_create none 9) ≡ some 9
unfolding get_singleton singleton_create
singleton_runs = refl
