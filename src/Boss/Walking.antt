-- ===== src/Boss/Walking.antt =====
-- `sessions_close_sockets` walks the vector outside the critical section of the boss, while the
-- workers end sessions and take them out of it.
use libiocp.Base.{
  ℕ, zero, suc, ◌+◌, ◌≤◌, ◌<◌, ◌≡◌, ◌≢◌, ap, List, [], ◌∷◌, arith, length, take, get_or, ◌==◌,
  if◌then◌else◌, Bool, true, false,
}
use libiocp.Registry
use libiocp.Session.State.{Session, close_socket}
use libiocp.Boss.{Boss, update, world, session_remove}
use libiocp.Boss.Sockets.{close_socket-session}

-- The iterator stands at `at`; erasing moves what stands behind an entry one place down, and leaves
-- the iterator where it is. `removed` counts the removals. `strayed` tells that the loop has gone on
-- behind the end, where what it does is not defined.
pub record Walk : Type 0 where
  pub boss : Boss
  pub at : ℕ
  pub removed : ℕ
  pub strayed : Bool

-- The body of the loop, and the step of the iterator.
unfoldable pub close_at : Walk → Walk
close_at w =
    let s = get_or w.boss.sessions w.at 0 in
    let c = close_socket (world w.boss (w.boss.store s)) in
    record w {
      boss = record (w.boss) { store = update w.boss.store s c.session; calls = c.calls };
      at = w.at + 1;
    }

-- The loop goes on while the iterator is not the end: in front of it with the next session, and behind
-- it too, where the walk strays. A worker removes a session that is there.
pub data WalkStep (w : Walk) : Walk → Type 0 where
  walks : w.at < length w.boss.sessions → WalkStep w (close_at w)
  strays : length w.boss.sessions < w.at → WalkStep w (record w { strayed = true })
  removes :
      (s : ℕ)
      → (Registry.session_remove w.boss.sessions s).1 ≡ true
      → WalkStep w (record w { boss = session_remove w.boss s; removed = w.removed + 1 })

pub data Walked (b : Boss) : Walk → Type 0 where
  here : Walked b (record { boss = b; at = 0; removed = 0; strayed = false })
  next : {v w : Walk} → Walked b v → WalkStep v w → Walked b w

-- How many of the sessions have a socket.
unfoldable pub open_in : (ℕ → Session) → List ℕ → ℕ
open_in store [] = 0
open_in store (s ∷ ss) = (if (store s).socket == 0 then 0 else 1) + open_in store ss

open_in-take-suc :
    (f : ℕ → Session) (k : ℕ) (xs : List ℕ)
    → open_in f (take (suc k) xs) ≤ open_in f (take k xs) + 1
unfolding open_in
open_in-take-suc f k [] = ground arith
open_in-take-suc f zero (x ∷ xs) = ground arith
open_in-take-suc f (suc k) (x ∷ xs) = ground (arith, open_in-take-suc f k xs)

open_in-remove :
    (f : ℕ → Session) (k : ℕ) (xs : List ℕ) (s : ℕ)
    → open_in f (take k (Registry.session_remove xs s).0) ≤ open_in f (take k xs) + 1
unfolding open_in Registry.session_remove
open_in-remove f k [] s = ground arith
open_in-remove f zero (x ∷ xs) s = ground arith
open_in-remove f (suc k) (x ∷ xs) s =
    ground (arith, open_in-remove f k xs s, open_in-take-suc f k xs)

length-remove : (xs : List ℕ) (s : ℕ) → length xs ≤ length (Registry.session_remove xs s).0 + 1
unfolding Registry.session_remove
length-remove [] s = ground arith
length-remove (x ∷ xs) s = ground (arith, length-remove xs s)

-- Closing one more session opens none.
open_in-update :
    (f : ℕ → Session) (s : ℕ) (c : Session) (xs : List ℕ)
    → c.socket ≡ 0
    → open_in (update f s c) xs ≤ open_in f xs
unfolding open_in
open_in-update f s c [] e = ground arith
open_in-update f s c (x ∷ xs) e = ground (arith, open_in-update f s c xs e)

open_in-close :
    (f : ℕ → Session) (k : ℕ) (c : Session) (xs : List ℕ)
    → c.socket ≡ 0
    → k < length xs
    → open_in (update f (get_or xs k 0) c) (take (suc k) xs) ≤ open_in f (take k xs)
unfolding open_in
open_in-close f k c [] e lt = absurd (omega arith)
open_in-close f zero c (x ∷ xs) e lt = ground arith
open_in-close f (suc k) c (x ∷ xs) e lt = ground (arith, open_in-close f k c xs e (omega arith))

-- `passed` is about the sessions in front of the iterator, `inside` about where it stands, or stood
-- when the walk strayed.
pub record Bounded (w : Walk) : Type 0 where
  pub passed : open_in w.boss.store (take w.at w.boss.sessions) ≤ w.removed
  pub inside : w.at ≤ length w.boss.sessions + w.removed
  pub astray : w.strayed ≡ true → 0 < w.removed

close_at-Bounded : (w : Walk) → w.at < length w.boss.sessions → Bounded w → Bounded (close_at w)
unfolding close_at
close_at-Bounded w lt v =
    let s = get_or w.boss.sessions w.at 0 in
    let c = world w.boss (w.boss.store s) in
    let shut = ap Session.socket (close_socket-session c) in
    let less = open_in-close w.boss.store w.at (close_socket c).session w.boss.sessions shut lt in
    let next_at : w.at + 1 ≡ suc w.at = omega arith in
    record {
      passed = rw next_at (omega (arith, less, v.passed));
      inside = omega (arith, v.inside);
      astray = v.astray;
    }

WalkStep-Bounded : {v w : Walk} → WalkStep v w → Bounded v → Bounded w
unfolding session_remove
WalkStep-Bounded {v = v} (walks lt) b = close_at-Bounded v lt b
WalkStep-Bounded (strays over) b = record {
  passed = b.passed;
  inside = b.inside;
  astray = λ e. omega (arith, b.inside);
}
WalkStep-Bounded {v = v} (removes s there) b = record {
  passed = omega (arith, b.passed, open_in-remove v.boss.store v.at v.boss.sessions s);
  inside = omega (arith, b.inside, length-remove v.boss.sessions s);
  astray = λ e. omega arith;
}

-- As `sessions_close_sockets` walks the vector while workers remove sessions from it, up to the point
-- where the loop strays behind the end: at most as many sessions as have been removed are passed over
-- with their sockets open, and the iterator stands at most as many places behind the end. The loop
-- strays only if a session has been removed: otherwise it closes them all and stops at the end.
pub Walked-Bounded : {b : Boss} {w : Walk} → Walked b w → Bounded w
unfolding open_in
Walked-Bounded here = record { passed = omega arith; inside = omega arith; astray = λ e. cc }
Walked-Bounded (next r st) = WalkStep-Bounded st (Walked-Bounded r)

-- Of two sessions, the first is closed and then removed, and the walk ends: the second is passed over.
walk_passes_over :
    (b : Boss) (s t : ℕ)
    → b.sessions ≡ s ∷ t ∷ []
    → s ≢ t
    → (b.store t).socket ≢ 0
    → (w : Walk) × Walked b w
      × (w.at ≡ length w.boss.sessions)
      × (w.boss.sessions ≡ t ∷ [])
      × ((w.boss.store t).socket ≢ 0)
unfolding close_at session_remove Registry.session_remove
walk_passes_over b s t e ne up =
    let v = close_at (record { boss = b; at = 0; removed = 0; strayed = false }) in
    (
      record v { boss = session_remove v.boss s; removed = v.removed + 1 },
      next (next here (walks (rw e (omega arith)))) (removes s (rw e (ground arith))),
      rw e (ground arith),
      rw e (ground arith),
      rw e (ground arith),
    )
