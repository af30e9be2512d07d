-- ===== src/Ringbuf/Threads.antt =====
-- ringbufT shared by threads that may block in `put` and in `get`.
pub mod Sound
pub mod Wait
use libiocp.Base.{
  ℕ, zero, suc, mod_once, tabulate, ◌+◌, ◌<◌, ◌≡◌, ◌≢◌, refl, ◌∙◌, sym, ◌⊎◌, inl, inr, Bool, true,
  false, List, [], ◌∷◌, ◌++◌, Option, none, some, arith, length, ◌==◌, if◌then◌else◌, ℤ, pos, ap,
  ℕ_discrete, Bool-cases,
}
use mathlib.Core.List.{append-nil, append_assoc}
use mathlib.Core.Path.{subst}
use libiocp.Queue.Threads.{received}
use libiocp.Ringbuf.{
  Ring, RingStep, returned, blocked, used, put_slot, get_slot, put, put_resumed, get, get_resumed,
  stop, init,
}
use libiocp.Ringbuf.Contents.{
  IsValid, contents, put_slot-IsValid, get_slot-IsValid, contents-put_slot, contents-get_slot,
  used-put_slot, used-get_slot, used-lt,
}
use libiocp.Ringbuf.Fifo.{full_iff, marked_put, marked_get}

-- Where a thread stands: outside, in a wait on a full ring with the item that it brings or on an
-- empty one, or out of that wait and about to lock the mutex again.
pub data RingPc (A : Type 0) : Type 0 where
  idle empty_wait empty_woken : RingPc A
  full_wait full_woken : A → RingPc A

-- `sent` are the items for which `put` returned 1, `got` those that `get` wrote.
pub record Sharing (A : Type 0) : Type 0 where
  pub ring : Ring A
  pub pc : ℕ → RingPc A
  pub sent : List A
  pub got : List A

module _ {A : Type 0} where
  abbrev pub accepted : ℤ → A → List A
  accepted (pos (suc n)) x = x ∷ []
  accepted _ x = []

  abbrev pub place : (ℕ → RingPc A) → ℕ → RingPc A → ℕ → RingPc A
  place f i p j = if i == j then p else f j

  unfoldable pub end_put : Sharing A → ℕ → A → RingStep A → Sharing A
  end_put s i x (returned k o r) = record s {
    ring = r;
    pc = place s.pc i idle;
    sent = s.sent ++ accepted k x;
  }
  end_put s i x (blocked r) = record s { ring = r; pc = place s.pc i (full_wait x) }

  unfoldable pub end_get : Sharing A → ℕ → RingStep A → Sharing A
  end_get s i (returned k o r) = record s {
    ring = r;
    pc = place s.pc i idle;
    got = s.got ++ received o;
  }
  end_get s i (blocked r) = record s { ring = r; pc = place s.pc i empty_wait }

module _ {A : Type 0} (junk : A) where
  -- A thread calls, comes out of a wait whose event is set, or goes on from it; `stop` at any time.
  pub data SharingStep (s : Sharing A) : Sharing A → Type 0 where
    puts :
        (i : ℕ) (x : A) (wait : Bool)
        → s.pc i ≡ idle
        → SharingStep s (end_put s i x (put junk s.ring x wait))
    gets :
        (i : ℕ) (wait : Bool) → s.pc i ≡ idle → SharingStep s (end_get s i (get junk s.ring wait))
    wakes_put :
        (i : ℕ) (x : A)
        → s.pc i ≡ full_wait x
        → s.ring.not_full ≡ true
        → SharingStep s (record s { pc = place s.pc i (full_woken x) })
    wakes_get :
        (i : ℕ)
        → s.pc i ≡ empty_wait
        → s.ring.not_empty ≡ true
        → SharingStep s (record s { pc = place s.pc i empty_woken })
    resumes_put :
        (i : ℕ) (x : A)
        → s.pc i ≡ full_woken x
        → SharingStep s (end_put s i x (put_resumed junk s.ring x))
    resumes_get :
        (i : ℕ) → s.pc i ≡ empty_woken → SharingStep s (end_get s i (get_resumed junk s.ring))
    stops : SharingStep s (record s { ring = stop junk s.ring })

  -- The ring behind `init (bound)`.
  unfoldable pub start : (r : Ring A) (bound : ℕ) (storage : List A) → Sharing A
  start r bound storage = record {
    ring = init junk r bound storage;
    pc = λ _. idle;
    sent = [];
    got = [];
  }

  pub data Shares (r : Ring A) (bound : ℕ) (storage : List A) : Sharing A → Type 0 where
    here : Shares r bound storage (start r bound storage)
    next : {s t : Sharing A} → Shares r bound storage s → SharingStep s t → Shares r bound storage t
