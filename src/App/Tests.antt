-- ===== src/App/Tests.antt =====
-- A file of a few bytes.
use libiocp.Base.{ℕ, ◌≡◌, ◌+◌, refl, true, false, ◌⊎◌, List, [], ◌∷◌, Option, some, arith, ℤ, pos}
use libiocp.App.Server.{fresh}
use libiocp.App.Client.{ClientData, Files, ClientApp, client_imp}
use libiocp.Package.{NetStatus}
use libiocp.Queue.{empty}
use libiocp.Loop.{Loop}
use libiocp.Session.Io.{completed}
use libiocp.Session.Tests.{session}
use libiocp.App.{Shared}
use libiocp.App.Server.{ServerApp}
use libiocp.App.Main.{breaks, turns, main_turn}
use libiocp.App.Main.Turns.{Served, main_turn_lem}
use libiocp.App.Copying.{serve_all, eat, Copied, copy_whole}

abbrev fopen : ℤ → ℕ → Option ℕ
fopen id copy = some (copy + 1)

abbrev client : ClientData
client = record {
  at = 0;
  count = 0;
  id = pos 0;
  reply = 0 ∷ 0 ∷ [];
  pf = some 1;
  buf = [];
  recv_count = 0;
}

abbrev files : Files
files = record { written = λ h. []; fclosed = [] }

abbrev even : List ℕ
even = 1 ∷ 2 ∷ 3 ∷ 4 ∷ []

abbrev odd : List ℕ
odd = 1 ∷ 2 ∷ 3 ∷ []

copy_whole_example :
    (n : ℕ) × Copied even 2 [] fopen client files 1 even
      (eat even 2 [] fopen (serve_all even 2 [] fopen n) client files)
copy_whole_example =
    copy_whole even 2 [] fopen client files 1 (omega arith) (λ e. omega (arith, e)) (omega arith)
      refl (omega arith)

abbrev shared : Shared
shared = record {
  store = λ i. session;
  sessions = 3 ∷ [];
  calls = [];
  freed = [];
  answers = λ i. completed;
  asked = 0;
}

abbrev server : ServerApp
server = record { shared = shared; objects = λ i. fresh }

abbrev loop : Loop
loop = record {
  pack = record { status = NetStatus.recv_finished; session = 3; pack_size = 1; err = 0 };
  session = 3;
  queue = empty;
  quiting = false;
  connect_count = pos 1;
}

abbrev last_copy : ClientApp
last_copy = record {
  shared = shared;
  objects = λ i. record client { count = 1; buf = 48 ∷ []; pf = some 7 };
  files = files;
}

abbrev halted : Loop
halted = record loop {
  queue = record { count = 1; stop = true; items = loop.pack ∷ []; not_empty = true };
}

main_turn_lem_example :
    ((halted.quiting ≡ true)
      × (main_turn (client_imp fopen []) halted last_copy ≡ breaks halted last_copy))
    ⊎ ((halted.quiting ≡ false)
        × (halted.queue.stop ≡ false)
        × Served
            (client_imp fopen [])
            halted
            last_copy
            (main_turn (client_imp fopen []) halted last_copy))
    ⊎ ((halted.quiting ≡ false)
        × ((halted.queue.stop ≡ true) ⊎ (halted.queue.items ≡ []))
        × (main_turn (client_imp fopen []) halted last_copy ≡ turns halted last_copy))
main_turn_lem_example =
    main_turn_lem (client_imp fopen []) halted last_copy (record { counted = refl })
