-- ===== src/Pool/Serving.antt =====
-- A slot whose user waits for each task before it gives the next.
use libiocp.Base.{ℕ, ◌≡◌, refl, sym, ap, ◌∙◌, Bool, true, false, List, [], ◌∷◌, ◌++◌, some, arith}
use libiocp.Sync.{Event, event_create, event_signal}
use libiocp.Pool.{at_wait, woken, running, Slot, worker_step, thread_run, thread_waitfinished}

-- Whether the user is inside `thread_waitfinished`.
pub data User : Type 0 where
  free awaiting : User

-- `asked` are the tasks that the user has given, in their order.
pub record Served : Type 0 where
  pub slot : Slot
  pub user : User
  pub asked : List (ℕ × ℕ)

-- The user gives a task, the thread takes a turn, the user's wait returns.
pub data ServeStep (s : Served) : Served → Type 0 where
  asks :
      (f p : ℕ)
      → s.user ≡ free
      → ServeStep s (record s {
        slot = thread_run s.slot f p;
        user = awaiting;
        asked = s.asked ++ (f, p) ∷ [];
      })
  works : (t : Slot) → worker_step s.slot ≡ some t → ServeStep s (record s { slot = t })
  gets :
      (t : Slot) (r : Bool)
      → s.user ≡ awaiting
      → thread_waitfinished s.slot ≡ some (t, r)
      → ServeStep s (record s { slot = t; user = free })

pub data ServeSteps (s : Served) : Served → Type 0 where
  here : ServeSteps s s
  next : {t u : Served} → ServeSteps s t → ServeStep t u → ServeSteps s u

-- A slot as `create` and `run` leave it, that has not been used.
pub record IsFresh (s : Served) : Type 0 where
  pub user : s.user ≡ free
  pub asked : s.asked ≡ []
  pub ran : s.slot.ran ≡ []
  pub worker : s.slot.worker ≡ at_wait
  pub control : s.slot.control_event ≡ event_create false
  pub finished : s.slot.thread_event ≡ event_create false
  pub abort : s.slot.abort ≡ false

abbrev up : Event
up = record { manual = false; signaled = true }

abbrev down : Event
down = record { manual = false; signaled = false }

-- The five places at which such a slot can be.
data Phase (s : Served) : Type 0 where
  resting :
      s.user ≡ free
      → s.slot.worker ≡ at_wait
      → s.slot.control_event ≡ down
      → s.slot.thread_event ≡ down
      → s.slot.ran ≡ s.asked
      → Phase s
  called :
      (f p : ℕ) (before : List (ℕ × ℕ))
      → s.user ≡ awaiting
      → s.slot.worker ≡ at_wait
      → s.slot.control_event ≡ up
      → s.slot.thread_event ≡ down
      → s.slot.ran ≡ before
      → s.asked ≡ before ++ (f, p) ∷ []
      → s.slot.loop_f ≡ some f
      → s.slot.loop_p ≡ p
      → Phase s
  awake :
      (f p : ℕ) (before : List (ℕ × ℕ))
      → s.user ≡ awaiting
      → s.slot.worker ≡ woken
      → s.slot.control_event ≡ down
      → s.slot.thread_event ≡ down
      → s.slot.ran ≡ before
      → s.asked ≡ before ++ (f, p) ∷ []
      → s.slot.loop_f ≡ some f
      → s.slot.loop_p ≡ p
      → Phase s
  busy :
      (f p : ℕ) (before : List (ℕ × ℕ))
      → s.user ≡ awaiting
      → s.slot.worker ≡ running f p
      → s.slot.control_event ≡ down
      → s.slot.thread_event ≡ down
      → s.slot.ran ≡ before
      → s.asked ≡ before ++ (f, p) ∷ []
      → Phase s
  finished :
      s.user ≡ awaiting
      → s.slot.worker ≡ at_wait
      → s.slot.control_event ≡ down
      → s.slot.thread_event ≡ up
      → s.slot.ran ≡ s.asked
      → Phase s

record Inv (s : Served) : Type 0 where
  abort : s.slot.abort ≡ false
  phase : Phase s

ServeStep-Phase : {s t : Served} → ServeStep s t → s.slot.abort ≡ false → Phase s → Inv t
unfolding thread_run worker_step thread_waitfinished event_signal
ServeStep-Phase {s = s} (asks f p e) a (resting u w c d r) = record {
  abort = a;
  phase =
      called f p s.slot.ran refl w (ground arith) d refl (ap (λ xs. xs ++ (f, p) ∷ []) (sym r)) refl
        refl;
}
ServeStep-Phase (asks f p e) a (called g q b u w c d r k lf lp) = cc
ServeStep-Phase (asks f p e) a (awake g q b u w c d r k lf lp) = cc
ServeStep-Phase (asks f p e) a (busy g q b u w c d r k) = cc
ServeStep-Phase (asks f p e) a (finished u w c d r) = cc
ServeStep-Phase (works t e) a (resting u w c d r) = ground arith
ServeStep-Phase (works t e) a (called g q b u w c d r k lf lp) = record {
  abort = ground arith;
  phase =
      awake g q b u (ground arith) (ground arith) (ground arith) (ground arith) k (ground arith)
        (ground arith);
}
ServeStep-Phase (works t e) a (awake g q b u w c d r k lf lp) = record {
  abort = ground arith;
  phase = busy g q b u (ground arith) (ground arith) (ground arith) (ground arith) k;
}
ServeStep-Phase (works t e) a (busy g q b u w c d r k) = record {
  abort = ground arith;
  phase = finished u (ground arith) (ground arith) (ground arith) (ground arith);
}
ServeStep-Phase (works t e) a (finished u w c d r) = ground arith
ServeStep-Phase (gets t r' x e) a (resting u w c d r) = cc
ServeStep-Phase (gets t r' x e) a (called g q b u w c d r k lf lp) = ground arith
ServeStep-Phase (gets t r' x e) a (awake g q b u w c d r k lf lp) = ground arith
ServeStep-Phase (gets t r' x e) a (busy g q b u w c d r k) = ground arith
ServeStep-Phase (gets t r' x e) a (finished u w c d r) = record {
  abort = ground arith;
  phase = resting refl (ground arith) (ground arith) (ground arith) (ground arith);
}

ServeSteps-Inv : {s t : Served} → ServeSteps s t → IsFresh s → Inv t
unfolding event_create
ServeSteps-Inv here v = record {
  abort = v.abort;
  phase = resting v.user v.worker v.control v.finished (v.ran ∙ sym v.asked);
}
ServeSteps-Inv (next r st) v = let i = ServeSteps-Inv r v in ServeStep-Phase st i.abort i.phase

ran_when_free : (s : Served) → Phase s → s.user ≡ free → s.slot.ran ≡ s.asked
ran_when_free s (resting u w c d r) e = r
ran_when_free s (called f p b u w c d r k lf lp) e = cc
ran_when_free s (awake f p b u w c d r k lf lp) e = cc
ran_when_free s (busy f p b u w c d r k) e = cc
ran_when_free s (finished u w c d r) e = cc

-- A slot serves its user in order: whenever the user's wait has returned, the thread has run exactly
-- the tasks that were asked of it, each once, in the order in which they were asked.
pub served_in_order :
    {s t : Served} → ServeSteps s t → IsFresh s → t.user ≡ free → t.slot.ran ≡ t.asked
served_in_order r v e = ran_when_free _ (ServeSteps-Inv r v).phase e

-- What the wait leads to.
abbrev pub CanReturn : Served → Type 0
CanReturn s = (t : Served) × ServeSteps s t × (t.user ≡ free) × (t.asked ≡ s.asked)

after : {s t : Served} → ServeStep s t → t.asked ≡ s.asked → CanReturn t → CanReturn s
after st e (u, r, f, a) = (u, before st r, f, a ∙ e)
  where
    before : {s t u : Served} → ServeStep s t → ServeSteps t u → ServeSteps s u
    before st here = next here st
    before st (next r x) = next (before st r) x

from_finished : (s : Served) → s.user ≡ awaiting → s.slot.thread_event ≡ up → CanReturn s
unfolding thread_waitfinished
from_finished s u d = (
  record s { slot = record (s.slot) { thread_event = down }; user = free },
  next here (gets _ true u (ground arith)),
  refl,
  refl,
)

from_busy :
    (s : Served) (f p : ℕ)
    → s.user ≡ awaiting
    → s.slot.worker ≡ running f p
    → s.slot.thread_event ≡ down
    → CanReturn s
unfolding worker_step event_signal
from_busy s f p u w d =
    after
      (works
        (record (s.slot) { thread_event = up; worker = at_wait; ran = s.slot.ran ++ (f, p) ∷ [] })
        (ground arith))
      refl (from_finished _ u refl)

from_awake :
    (s : Served) (f : ℕ)
    → s.user ≡ awaiting
    → s.slot.worker ≡ woken
    → s.slot.thread_event ≡ down
    → s.slot.abort ≡ false
    → s.slot.loop_f ≡ some f
    → CanReturn s
unfolding worker_step
from_awake s f u w d a lf =
    after (works (record (s.slot) { worker = running f s.slot.loop_p }) (ground arith)) refl
      (from_busy _ f s.slot.loop_p u refl d)

from_phase : (s : Served) → s.slot.abort ≡ false → Phase s → s.user ≡ awaiting → CanReturn s
unfolding worker_step
from_phase s a (resting u w c d r) e = cc
from_phase s a (called f p b u w c d r k lf lp) e =
    after (works (record (s.slot) { control_event = down; worker = woken }) (ground arith)) refl
      (from_awake _ f u refl d a lf)
from_phase s a (awake f p b u w c d r k lf lp) e = from_awake s f u w d a lf
from_phase s a (busy f p b u w c d r k) e = from_busy s f p u w d
from_phase s a (finished u w c d r) e = from_finished s u d

-- The user's wait can always return, by turns of the thread alone and without another task.
pub wait_returns : {s t : Served} → ServeSteps s t → IsFresh s → t.user ≡ awaiting → CanReturn t
wait_returns r v e = let i = ServeSteps-Inv r v in from_phase _ i.abort i.phase e
