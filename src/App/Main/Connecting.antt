-- ===== src/App/Main/Connecting.antt =====
-- examples/client/client.cpp: `main`.
pub mod Leak
use libiocp.Base.{
  ℕ, ◌+◌, ◌*◌, ◌≡◌, ◌≢◌, ◌⊎◌, inl, inr, refl, ap, ◌∙◌, Bool, true, false, List, [], Option, none,
  ◌==◌, if◌then◌else◌, pos, arith, Bool-cases, ℕ_discrete,
}
use libiocp.Queue.{Queue, quit}
use libiocp.Reference.{Counted}
use libiocp.MsgQueue.{MsgQueue, msg_queue_init, queue_ref, queue_deref}
use libiocp.Session.State.{Session}
use libiocp.Connector.{Client, Connection, client_create, client_open, client_close, sessions_open}

-- The client, whose boss holds the packages of the message queue, with the count of the queue.
pub record ClientProgram : Type 0 where
  pub client : Client
  pub counted : Counted

-- RECV_BUF_LEN.
abbrev recv_buf_len : ℕ
recv_buf_len = 1024 * 64 + 100

-- The message queue of the program, and what a call makes of it.
abbrev msg_queue : ClientProgram → MsgQueue
msg_queue p = record { packages = p.client.boss.queue; counted = p.counted }

abbrev with_queue : ClientProgram → MsgQueue → ClientProgram
with_queue p q = record {
  client = record (p.client) { boss = record (p.client.boss) { queue = q.packages } };
  counted = q.counted;
}

abbrev close_client : ClientProgram → Bool → ClientProgram
close_client p posted = record p { client = client_close p.client posted }

-- The queue and the client are made. The queue stands at `this`.
unfoldable pub client_start : (store : ℕ → Session) (this : ℕ) → ClientProgram
unfolding msg_queue_init client_create
client_start store this =
    let q = (msg_queue_init none this).0 in
    record {
      client = client_create recv_buf_len recv_buf_len store q.packages;
      counted = q.counted;
    }

-- iocp_loop::init and its destructor.
unfoldable pub loop_init : ClientProgram → ClientProgram
loop_init p = with_queue p (queue_ref (msg_queue p))

unfoldable pub loop_end : ClientProgram → ClientProgram
loop_end p = with_queue p (queue_deref (msg_queue p))

-- The end of `main` behind its loop.
unfoldable pub client_stopped : ClientProgram → (posted : Bool) → ClientProgram
client_stopped p posted =
    let q = msg_queue p in
    let closed = close_client (with_queue p (record q { packages = quit q.packages })) posted in
    with_queue closed (queue_deref (msg_queue closed))

-- `main` behind `sessions_open`, with the destructors of the loop and of the client. `work` is what
-- becomes of the program in the loop.
unfoldable pub client_served :
    (work : ClientProgram → ClientProgram) → ClientProgram → (posted again : Bool) → ClientProgram
unfolding loop_init loop_end client_stopped
client_served work p posted again =
    close_client (loop_end (client_stopped (work (loop_init p)) posted)) again

-- `handle` is the answer to `open`, `connections` are the answers to `sessions_open`, one for each of
-- CLIENT_COUNT, and `posted` and `again` are for `close` and for the one of the destructor.
unfoldable pub client_main :
    (work : ClientProgram → ClientProgram) (store : ℕ → Session) (this handle : ℕ)
    → List Connection
    → (posted again : Bool) → ClientProgram
unfolding client_start client_served
client_main work store this handle connections posted again =
    let p = client_start store this in
    let (c, opened) = client_open p.client handle in
    let (d, all) = sessions_open c connections in
    if opened == 0
    then close_client (close_client (record p { client = c }) posted) again
    else if all
    then client_served work (record p { client = d }) posted again
    else close_client (close_client (record p { client = d }) posted) again
