-- ===== src/Server/Tests.antt =====
-- A server that opens with four threads.
use libiocp.Base.{◌≡◌, refl, true, false, [], ◌∷◌, some, pos}
use libiocp.Package.{NetStatus, Package}
use libiocp.Iobuf.{Iobuf}
use libiocp.Session.State.{Session, io_send, io_recv}
use libiocp.Queue.{empty}
use libiocp.Listener.{socket_open, open_bound}
use libiocp.Server.{Server, server_create, Answers, server_open, open_port, iocp_open, ref}
use libiocp.App.Main.{server_main}
use libiocp.App.Main.Ending.{server_main-destroyed}

abbrev buffer : Iobuf
buffer = record { buf = 0 ∷ 0 ∷ []; size = 2; head = 0; trail = 0 }

abbrev session : Session
session = record {
  id = 0;
  socket = 44;
  err = 0;
  iocp = 1;
  iocp_err = 0;
  io_send_buf = 0;
  io_send_buf_len = 0;
  io_recv_buf = [];
  io_recv_buf_len = 0;
  pack_size = 0;
  recv_buf = buffer;
  send_buf = buffer;
  recv_op = io_recv;
  send_op = io_send;
  session_data = 0;
  debug_disconnected = false;
}

abbrev server : Server
server = server_create 80 (pos 100) 2 2 (pos 4) (λ _. session) empty (pos 1) 0

abbrev junk : Package
junk = record { status = NetStatus.noop; session = 0; pack_size = 0; err = 0 }

abbrev answers : Answers
answers = record {
  sock = some 7;
  bound = true;
  listens = true;
  code = 0;
  processors = 2;
  handle = 5;
}

abbrev taken : Answers
taken = record answers { bound = false; code = 10048 }

-- The loop serves its packages and leaves an empty queue.
abbrev works : Server → Server
works s = record s {
  boss = record (s.boss) { queue = record (s.boss.queue) { count = 0; items = [] } };
}

server_main-destroyed_example :
    let end = server_main works server answers true junk in
    (end.refs ≡ pos 0)
    × (end.closed ≡ true)
    × (end.boss.queue.stop ≡ true)
    × (end.boss.queue.items ≡ [])
unfolding server_open socket_open open_bound open_port iocp_open ref server_create
server_main-destroyed_example =
    server_main-destroyed works server answers true junk (λ t. (refl, refl)) refl refl
