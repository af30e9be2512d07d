-- ===== src/Loop/Tests.antt =====
-- A loop whose application writes down the callbacks.
use libiocp.Base.{◌≡◌, refl, true, false, List, [], ◌∷◌, ◌++◌, pos}
use libiocp.Package.{NetStatus, Package}
use libiocp.Queue.{put}
use libiocp.Queue.Fifo.{put-IsValid}
use libiocp.Loop.{Loop, Callback, ended, run_loop}
use libiocp.Loop.Running.{IsOrderly, Served, quit_returns}

abbrev imp : Callback → Loop → List Callback → Loop × List Callback
imp c l a = (l, a ++ c ∷ [])

abbrev up : Package
up = record { status = NetStatus.connected; session = 3; pack_size = 0; err = 0 }

abbrev down : Package
down = record up { status = NetStatus.disconnected }

abbrev loop : Loop
loop = record {
  pack = down;
  session = 3;
  queue = record { count = 2; stop = false; items = up ∷ down ∷ []; not_empty = true };
  quiting = false;
  connect_count = pos 1;
}

abbrev halted : Loop
halted = record loop { queue = record (loop.queue) { stop = true } }

abbrev quit : Package
quit = record up { status = NetStatus.quit }

abbrev quits : Loop
quits = record loop {
  queue = record { count = 3; stop = false; items = up ∷ quit ∷ down ∷ []; not_empty = true };
}

-- It puts a package for each.
abbrev imp_putting : Callback → Loop → List Callback → Loop × List Callback
imp_putting c l a = (record l { queue = (put l.queue down).0 }, a ++ c ∷ [])

imp_putting-IsOrderly : IsOrderly imp_putting
unfolding put
imp_putting-IsOrderly c l a v runs = record {
  valid = put-IsValid l.queue down v;
  runs = rw runs refl;
  more = down ∷ [];
  behind = rw runs refl;
}

quit_returns_example :
    (m : Loop) × (b : List Callback) × (run_loop imp_putting 2 quits [] ≡ ended m b)
    × (m.quiting ≡ true)
    × Served imp_putting quits [] (up ∷ []) m b
quit_returns_example =
    quit_returns imp_putting quits [] (up ∷ []) quit (down ∷ []) imp_putting-IsOrderly
      (record { counted = refl }) refl (λ e. cc, tt) refl refl
