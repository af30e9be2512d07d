-- ===== src/Boss/Tests.antt =====
-- A boss with two sessions.
use libiocp.Base.{refl, ℕ, false, [], ◌∷◌, arith}
use libiocp.Iobuf.{Iobuf}
use libiocp.Registry
use libiocp.Registry.{count}
use libiocp.Session.State.{Session, io_send, io_recv}
use libiocp.Boss.{Boss, Memory, session_remove}
use libiocp.Boss.Ids.{IsValid, run, run-IsValid}
use libiocp.Boss.Ids
use libiocp.Boss.Walking.{
  Walk, close_at, Walked, here, next, walks, removes, Bounded, Walked-Bounded,
}

abbrev one : ℕ
one = 1

abbrev buffer : Iobuf
buffer = record { buf = 0 ∷ 0 ∷ []; size = 2; head = 0; trail = 0 }

abbrev session : ℕ → Session
session n = record {
  id = n;
  socket = 44;
  err = 0;
  iocp = 1;
  iocp_err = 0;
  io_send_buf = 0;
  io_send_buf_len = 0;
  io_recv_buf = [];
  io_recv_buf_len = 0;
  pack_size = 0;
  recv_buf = buffer;
  send_buf = buffer;
  recv_op = io_recv;
  send_op = io_send;
  session_data = 0;
  debug_disconnected = false;
}

abbrev boss : Boss
boss = record {
  sessions = 1 ∷ 0 ∷ [];
  store = session;
  count = 2;
  send_bufsize = 2;
  recv_bufsize = 2;
  queue = record { count = 0; stop = false; items = []; not_empty = false };
  calls = [];
}

boss-IsValid : IsValid boss
unfolding count
boss-IsValid = record { once = λ s. ground arith; fresh = λ s le. ground arith }

abbrev memory : Memory
memory = record { fields = session 9; send_mem = 0 ∷ 0 ∷ []; recv_mem = 0 ∷ 0 ∷ [] }

run-IsValid_example : IsValid (run boss (Ids.removes 1))
run-IsValid_example = run-IsValid boss (Ids.removes 1) boss-IsValid

-- The walk has closed session 1 as a worker removes session 0.
abbrev walk : Walk
walk = close_at (record { boss = boss; at = 0; removed = 0; strayed = false })

abbrev shorter : Walk
shorter = record walk { boss = session_remove walk.boss 0; removed = 1 }

shorter-Walked : Walked boss shorter
unfolding close_at Registry.session_remove
shorter-Walked = next (next here (walks (omega arith))) (removes 0 refl)

Walked-Bounded_example : Bounded shorter
Walked-Bounded_example = Walked-Bounded shorter-Walked
