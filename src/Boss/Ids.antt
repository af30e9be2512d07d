-- ===== src/Boss/Ids.antt =====
-- The ids that the boss gives: each session in the vector stands there once.
use libiocp.Base.{
  ℕ, zero, suc, ◌+◌, ◌≤◌, ◌≡◌, refl, ◌≢◌, ◌⊎◌, List, [], ◌∷◌, ◌++◌, arith, ◌==◌, if◌then◌else◌,
}
use libiocp.Package.{NetStatus}
use libiocp.Queue.{put}
use libiocp.Registry.{count, count-session_remove}
use libiocp.Session.State.{connected, close_socket}
use libiocp.Boss.{
  Boss, update, world, Memory, session_join, session_remove, sessions_clear, close_all,
  sessions_close_sockets,
}

-- No id stands twice in the vector, and those not yet given do not stand there.
pub record IsValid (b : Boss) : Type 0 where
  pub once : (s : ℕ) → count s b.sessions ≤ 1
  pub fresh : (s : ℕ) → b.count ≤ s → count s b.sessions ≡ 0

count-append :
    (s x : ℕ) (xs : List ℕ)
    → count s (xs ++ x ∷ []) ≡ (if x == s then suc (count s xs) else count s xs)
unfolding count
count-append s x [] = refl
count-append s x (y ∷ xs) = ground (arith, count-append s x xs)

-- A call on the boss.
pub data Call : Type 0 where
  joins : (socket : ℕ) → Memory → (handle code : ℕ) → Call
  removes : ℕ → Call
  clears closes : Call

pub run : Boss → Call → Boss
run b (joins socket m handle code) = (session_join b socket m handle code).0
run b (removes s) = session_remove b s
run b clears = sessions_clear b
run b closes = sessions_close_sockets b

close_all-keeps :
    (b : Boss) (xs : List ℕ)
    → ((close_all b xs).sessions ≡ b.sessions) × ((close_all b xs).count ≡ b.count)
unfolding close_all
close_all-keeps b [] = (refl, refl)
close_all-keeps b (s ∷ xs) =
    let w = close_socket (world b (b.store s)) in
    close_all-keeps (record b { store = update b.store s w.session; calls = w.calls }) xs

pub join-IsValid :
    (b : Boss) (socket : ℕ) (m : Memory) (handle code : ℕ)
    → IsValid b
    → IsValid (session_join b socket m handle code).0
unfolding session_join
join-IsValid b socket m handle code v = record {
  once = λ s. ground (arith, v.once s, v.fresh s, count-append s b.count b.sessions);
  fresh = λ s le. ground (arith, v.fresh s, count-append s b.count b.sessions);
}

-- Every call on the boss keeps the ids in the vector distinct and below the next id.
pub run-IsValid : (b : Boss) (c : Call) → IsValid b → IsValid (run b c)
unfolding run session_remove sessions_clear sessions_close_sockets count
run-IsValid b (joins socket m handle code) v = join-IsValid b socket m handle code v
run-IsValid b (removes r) v = record {
  once = λ s. ground (arith, v.once s, count-session_remove b.sessions r s);
  fresh = λ s le. ground (arith, v.fresh s, count-session_remove b.sessions r s);
}
run-IsValid b clears v = record { once = λ s. omega arith; fresh = λ s le. refl }
run-IsValid b closes v =
    let (e, n) = close_all-keeps b b.sessions in
    record { once = λ s. rw e (v.once s); fresh = λ s le. rw e (v.fresh s (omega (arith, n))) }

-- Removing a session leaves it in the vector no more, and leaves every other where it was.
pub remove_gone :
    (b : Boss) (r s : ℕ)
    → IsValid b
    → count s (session_remove b r).sessions ≡ (if s == r then 0 else count s b.sessions)
unfolding session_remove
remove_gone b r s v = ground (arith, v.once s, count-session_remove b.sessions r s)

-- A session that the completion port takes stands at the end of the vector under the next id, and
-- is announced; of one that it refuses nothing is left but that its id is not given again.
pub session_join_lem :
    (b : Boss) (socket : ℕ) (m : Memory) (handle code : ℕ)
    → let (b', r) = session_join b socket m handle code in
      (b'.count ≡ b.count + 1)
      × (((handle ≡ 0) × (r ≡ 0) × (b'.sessions ≡ b.sessions) × (b'.queue ≡ b.queue))
          ⊎ ((handle ≢ 0)
              × (r ≡ 1)
              × (b'.sessions ≡ b.sessions ++ b.count ∷ [])
              × (b'.queue
                  ≡ (put b.queue (record {
                    status = NetStatus.connected;
                    session = b.count;
                    pack_size = m.fields.pack_size;
                    err = 0;
                  })).0)))
unfolding session_join connected
session_join_lem b socket m zero code = ground arith
session_join_lem b socket m (suc handle) code = ground arith
