-- ===== src/App/Main/Connecting/Leak.antt =====
-- What the client program leaves of its message queue.
use libiocp.Base.{
  ℕ, ◌≡◌, ◌≢◌, inl, inr, refl, ap, ◌∙◌, Bool, true, false, List, [], ◌∷◌, pos, arith, ℤ, Bool-cases,
  ◌==◌, if◌then◌else◌, ℕ_discrete, sym,
}
use libiocp.Queue.{Queue, quit, clear}
use libiocp.Reference.{Counted, ref, deref, threadref_create}
use libiocp.MsgQueue.{queue_ref, queue_deref, destroy, msg_queue_init}
use libiocp.Session.State.{Session, close_socket}
use libiocp.Boss.{Boss, update, world, close_all, sessions_close_sockets, sessions_clear}
use libiocp.Connector.{Client, Connection, client_open, client_close, sessions_open}
use libiocp.App.Main.Connecting.{
  ClientProgram, close_client, client_start, client_stopped, loop_init, loop_end, client_served,
  client_main,
}

abbrev holding : (refs : ℤ) (destroyed : ℕ) → Counted
holding refs destroyed = record { refs = refs; destroyed = destroyed }

close_all-queue : (b : Boss) (xs : List ℕ) → (close_all b xs).queue ≡ b.queue
unfolding close_all
close_all-queue b [] = refl
close_all-queue b (x ∷ xs) =
    let w = close_socket (world b (b.store x)) in
    close_all-queue (record b { store = update b.store x w.session; calls = w.calls }) xs

client_close-queue :
    (c : Client) (posted : Bool) → (client_close c posted).boss.queue ≡ c.boss.queue
unfolding client_close sessions_close_sockets sessions_clear
client_close-queue c posted = close_all-queue c.boss c.boss.sessions

client_close-sessions : (c : Client) (posted : Bool) → (client_close c posted).boss.sessions ≡ []
unfolding client_close sessions_clear
client_close-sessions c posted = refl

-- The queue has been destroyed, once: it is stopped and empty.
pub record Destroyed (p : ClientProgram) : Type 0 where
  pub counted : p.counted ≡ holding (pos 0) 1
  pub stopped : p.client.boss.queue.stop ≡ true
  pub emptied : p.client.boss.queue.items ≡ []

loop_end-last : (p : ClientProgram) → p.counted ≡ holding (pos 1) 0 → Destroyed (loop_end p)
unfolding loop_end queue_deref deref destroy clear quit
loop_end-last p e = record { counted = rw e refl; stopped = rw e refl; emptied = rw e refl }

loop_init-counted :
    (p : ClientProgram) → p.counted ≡ holding (pos 1) 0 → (loop_init p).counted ≡ holding (pos 2) 0
unfolding loop_init queue_ref ref
loop_init-counted p e = rw e refl

client_stopped-counted :
    (p : ClientProgram) (posted : Bool)
    → p.counted ≡ holding (pos 2) 0
    → (client_stopped p posted).counted ≡ holding (pos 1) 0
unfolding client_stopped queue_deref deref
client_stopped-counted p posted e = rw e refl

closed_after :
    (p : ClientProgram) (c : Client)
    → p.client.boss.queue ≡ c.boss.queue
    → Destroyed p
    → Destroyed (record p { client = c })
closed_after p c e d = record {
  counted = d.counted;
  stopped = ap Queue.stop (sym e) ∙ d.stopped;
  emptied = ap Queue.items (sym e) ∙ d.emptied;
}

client_served-Destroyed :
    (work : ClientProgram → ClientProgram) (p : ClientProgram) (posted again : Bool)
    → ((t : ClientProgram) → (work t).counted ≡ t.counted)
    → p.counted ≡ holding (pos 1) 0
    → Destroyed (client_served work p posted again)
unfolding client_served
client_served-Destroyed work p posted again keeps e =
    let served = work (loop_init p) in
    let l = loop_end (client_stopped served posted) in
    let one = client_stopped-counted served posted (keeps (loop_init p) ∙ loop_init-counted p e) in
    closed_after l (client_close l.client again) (sym (client_close-queue l.client again))
      (loop_end-last (client_stopped served posted) one)

client_start-counted :
    (store : ℕ → Session) (this : ℕ) → (client_start store this).counted ≡ holding (pos 1) 0
unfolding client_start msg_queue_init threadref_create
client_start-counted store this = refl

-- Whether the connections come up once the port has opened.
abbrev pub all_open : (ℕ → Session) → (this handle : ℕ) → List Connection → Bool
all_open store this handle connections =
    (sessions_open (client_open (client_start store this).client handle).0 connections).1

-- What the program leaves: it has gone through its loop and the queue is destroyed, once, or it has
-- failed to open and the queue still has its reference.
pub data Left (gets_through : Type 0) (p : ClientProgram) : Type 0 where
  freed : gets_through → Destroyed p → Left gets_through p
  leaked : ¬ gets_through → p.counted ≡ holding (pos 1) 0 → Left gets_through p

client_open-result :
    (c : Client) (handle : ℕ) → (client_open c handle).1 ≡ (if handle == 0 then 0 else 1)
unfolding client_open
client_open-result c handle = ground arith

client_open-handle : (c : Client) (handle : ℕ) → handle ≢ 0 → (client_open c handle).1 ≡ 1
client_open-handle c handle ne = ground (arith, client_open-result c handle)

-- Each end of the program close_client the client last.
closed_last :
    (b d : Bool) (x y z : ClientProgram) (again : Bool)
    → (if b
        then close_client x again
        else if d
        then close_client y again
        else close_client z again).client.boss.sessions
      ≡ []
closed_last true d x y z again = client_close-sessions x.client again
closed_last false true x y z again = client_close-sessions y.client again
closed_last false false x y z again = client_close-sessions z.client again

client_main-sessions :
    (work : ClientProgram → ClientProgram) (store : ℕ → Session) (this handle : ℕ)
    (connections : List Connection) (posted again : Bool)
    → (client_main work store this handle connections posted again).client.boss.sessions ≡ []
unfolding client_main client_served
client_main-sessions work store this handle connections posted again =
    closed_last ((client_open (client_start store this).client handle).1 == 0)
      (all_open store this handle connections) _ _ _ again

-- The message queue is destroyed, once and behind all its users, if the program gets to its loop and
-- the loop keeps the count. It is left with its first reference if the port does not open or a
-- connection fails. In both cases the boss has cleared its vector of sessions; the sessions themselves
-- are deleted by the callbacks of the loop alone.
pub client_main-Left :
    (work : ClientProgram → ClientProgram) (store : ℕ → Session) (this handle : ℕ)
    (connections : List Connection) (posted again : Bool)
    → ((t : ClientProgram) → (work t).counted ≡ t.counted)
    → let p = client_main work store this handle connections posted again in
      Left ((handle ≢ 0) × (all_open store this handle connections ≡ true)) p
      × (p.client.boss.sessions ≡ [])
unfolding client_main
client_main-Left work store this handle connections posted again keeps =
    let p = client_start store this in
    let one = client_start-counted store this in
    let none_left = client_main-sessions work store this handle connections posted again in
    (
      elim (ℕ_discrete handle 0) [
        | yes e ↦ leaked (λ g. g.0 e) (rw (client_open-result p.client handle, e) one)
        | no ne ↦
            let opened = client_open-handle p.client handle ne in
            elim (Bool-cases (all_open store this handle connections)) [
              | inl up ↦
                  freed (ne, up)
                    (rw (opened, up) (client_served-Destroyed work _ posted again keeps one))
              | inr down ↦ leaked (λ g. cc (g.1, down)) (rw (opened, down) one)
            ]
      ],
      none_left,
    )
