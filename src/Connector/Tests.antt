-- ===== src/Connector/Tests.antt =====
-- Two connections, of which the second is refused.
use libiocp.Base.{ℕ, ◌≡◌, ◌≢◌, refl, true, false, [], ◌∷◌, arith}
use libiocp.Registry.{count}
use libiocp.Session.Tests.{session, storage}
use libiocp.Boss.{Boss}
use libiocp.Boss.Ids.{IsValid}
use libiocp.Listener.Peer.{PeerAnswers}
use libiocp.Listener.Peer.{peer_open, peer_connect, set_keep_alive}
use libiocp.MsgQueue.{msg_queue_init}
use libiocp.App.Main.Connecting.{client_start, client_main}
use libiocp.App.Main.Connecting.Leak.{Left, all_open, client_main-Left}
use libiocp.Connector.{Client, Connection, client_create, client_open, open_turn, sessions_open}
use libiocp.Connector.Opening.{Opened, sessions_open-Opened}

abbrev boss : Boss
boss = record {
  sessions = [];
  store = λ i. session;
  count = 0;
  send_bufsize = 16;
  recv_bufsize = 16;
  queue = record { count = 0; stop = false; items = []; not_empty = false };
  calls = [];
}

boss-IsValid : IsValid boss
unfolding count
boss-IsValid = record { once = λ s. omega arith; fresh = λ s le. refl }

abbrev client : Client
client = record { boss = boss; port = 8; workers = 1; calls = [] }

abbrev good : PeerAnswers
good = record { started = true; sock = 44; keeps = true; connects = true; code = 0 }

abbrev up : Connection
up = record {
  answers = good;
  memory = record { fields = session; send_mem = storage; recv_mem = storage };
  handle = 8;
  code = 0;
}

abbrev down : Connection
down = record up { answers = record good { connects = false; code = 10061 } }

sessions_open-Opened_example :
    Opened client
      (up ∷ down ∷ [])
      (sessions_open client (up ∷ down ∷ [])).0
      (sessions_open client (up ∷ down ∷ [])).1
sessions_open-Opened_example = sessions_open-Opened client (up ∷ down ∷ []) boss-IsValid

abbrev handle : ℕ
handle = 8

client_main-Left_example :
    let p = client_main (λ p. p) (λ i. session) 9 handle (up ∷ up ∷ []) true true in
    Left ((handle ≢ 0) × (all_open (λ i. session) 9 handle (up ∷ up ∷ []) ≡ true)) p
    × (p.client.boss.sessions ≡ [])
client_main-Left_example =
    client_main-Left (λ p. p) (λ i. session) 9 handle (up ∷ up ∷ []) true true (λ t. refl)

-- With both connections up the program gets to its loop.
all_open_runs : all_open (λ i. session) 9 handle (up ∷ up ∷ []) ≡ true
unfolding client_start msg_queue_init client_create client_open sessions_open open_turn peer_open
    peer_connect set_keep_alive
all_open_runs = refl
