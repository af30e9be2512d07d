-- ===== src/Ringbuf/Threads/Wait.antt =====
-- No thread stays in a wait on a ringbufT that has what it waits for.
use libiocp.Base.{
  ℕ, ◌+◌, ◌<◌, ◌≡◌, refl, sym, ◌∙◌, ap, ◌⊎◌, inl, inr, true, List, [], ◌∷◌, ◌++◌, arith, length,
  take, if◌then◌else◌,
}
use mathlib.Core.List.{append-nil}
use libiocp.Ringbuf.{
  Ring, RingStep, returned, blocked, used, get_slot, put, put_resumed, get, get_resumed,
}
use libiocp.Ringbuf.Contents.{IsValid, contents, contents-get_slot}
use libiocp.Ringbuf.Fifo.{full_iff}
use libiocp.Ringbuf.Threads.{
  RingPc, idle, empty_wait, empty_woken, full_wait, full_woken, Sharing, place, end_put, end_get,
  SharingStep, wakes_put, wakes_get, resumes_put, resumes_get, Shares,
}
use libiocp.Ringbuf.Threads.Sound.{Shares-Sound}

module _ {A : Type 0} (junk : A) where
  -- Two steps of thread `i` alone bring it out of its call.
  pub record Ended (i : ℕ) (s t : Sharing A) : Type 0 where
    pub between : Sharing A
    pub wakes : SharingStep junk s between
    pub resumes : SharingStep junk between t
    pub out : t.pc i ≡ idle

  place_own : (f : ℕ → RingPc A) (i : ℕ) (p : RingPc A) → place f i p i ≡ p
  place_own f i p = ground arith

  -- What `put` and `get` do behind a wait that is over.
  resumed_put :
      (s : Sharing A) (i : ℕ) (x : A)
      → IsValid junk s.ring
      → (s.ring.stop ≡ true) ⊎ (used junk s.ring + 1 < s.ring.n)
      → let t = end_put s i x (put_resumed junk s.ring x) in
        (t.pc i ≡ idle) × (t.sent ≡ s.sent ++ (if s.ring.stop then [] else x ∷ []))
  unfolding end_put put_resumed put
  resumed_put s i x v h = ground (arith, (full_iff junk s.ring v).1)

  resumed_get :
      (s : Sharing A) (i : ℕ)
      → IsValid junk s.ring
      → (s.ring.stop ≡ true) ⊎ (0 < used junk s.ring)
      → let t = end_get s i (get_resumed junk s.ring) in
        (t.pc i ≡ idle)
        × (t.got ≡ s.got ++ (if s.ring.stop then [] else (get_slot junk s.ring).0 ∷ []))
  unfolding end_get get_resumed get
  resumed_get s i v h = ground arith

  oldest :
      (r : Ring A)
      → IsValid junk r
      → (r.stop ≡ true) ⊎ (0 < used junk r)
      → (if r.stop then [] else (get_slot junk r).0 ∷ [])
        ≡ (if r.stop then [] else take 1 (contents junk r))
  oldest r v (inl halted) = rw halted refl
  oldest r v (inr some_left) =
      ap (λ l. if r.stop then [] else take 1 l) (sym (contents-get_slot junk r v (omega arith)))

  end_put-got : (s : Sharing A) (i : ℕ) (x : A) (e : RingStep A) → (end_put s i x e).got ≡ s.got
  unfolding end_put
  end_put-got s i x (returned k o q) = refl
  end_put-got s i x (blocked q) = refl

  end_get-sent : (s : Sharing A) (i : ℕ) (e : RingStep A) → (end_get s i e).sent ≡ s.sent
  unfolding end_get
  end_get-sent s i (returned k o q) = refl
  end_get-sent s i (blocked q) = refl

  -- What thread `i` waits for is there: room for its item, or an item, or the stop.
  pub data Ready (s : Sharing A) (i : ℕ) : Type 0 where
    for_room :
        (x : A)
        → s.pc i ≡ full_wait x
        → (s.ring.stop ≡ true) ⊎ (used junk s.ring + 1 < s.ring.n)
        → Ready s i
    for_item : s.pc i ≡ empty_wait → (s.ring.stop ≡ true) ⊎ (0 < used junk s.ring) → Ready s i

  -- What it then sends, and what it gets.
  abbrev pub sends : (s : Sharing A) (i : ℕ) → Ready s i → List A
  sends s i (for_room x e h) = if s.ring.stop then [] else x ∷ []
  sends s i (for_item e h) = []

  abbrev pub obtains : (s : Sharing A) (i : ℕ) → Ready s i → List A
  obtains s i (for_room x e h) = []
  obtains s i (for_item e h) = if s.ring.stop then [] else take 1 (contents junk s.ring)

  -- A thread that waits in `put` or in `get` can come out of its call in two steps of its own, as soon
  -- as the ring is stopped, or is not full, or not empty, any more, whatever the other threads did.
  -- Unless the ring is stopped, its item is then accepted, or the oldest item is its own.
  pub waiter_ends :
      {r : Ring A} {bound : ℕ} {storage : List A} {s : Sharing A}
      → length storage ≡ bound + 1
      → Shares junk r bound storage s
      → (i : ℕ) (ready : Ready s i)
      → (t : Sharing A) × Ended i s t
        × (t.sent ≡ s.sent ++ sends s i ready)
        × (t.got ≡ s.got ++ obtains s i ready)
  waiter_ends {s = s} size reached i (for_room x e h) =
      let sound = Shares-Sound junk size reached in
      let m : Sharing A = record s { pc = place s.pc i (full_woken x) } in
      let (out, kept) = resumed_put m i x sound.valid h in
      (
        end_put m i x (put_resumed junk m.ring x),
        record {
          between = m;
          wakes = wakes_put i x e (sound.full_seen i x e h);
          resumes = resumes_put i x (place_own s.pc i (full_woken x));
          out = out;
        },
        kept,
        end_put-got m i x (put_resumed junk m.ring x) ∙ sym (append-nil s.got),
      )
  waiter_ends {s = s} size reached i (for_item e h) =
      let sound = Shares-Sound junk size reached in
      let m : Sharing A = record s { pc = place s.pc i empty_woken } in
      let (out, kept) = resumed_get m i sound.valid h in
      (
        end_get m i (get_resumed junk m.ring),
        record {
          between = m;
          wakes = wakes_get i e (sound.empty_seen i e h);
          resumes = resumes_get i (place_own s.pc i empty_woken);
          out = out;
        },
        end_get-sent m i (get_resumed junk m.ring) ∙ sym (append-nil s.sent),
        kept ∙ ap (λ l. s.got ++ l) (oldest s.ring sound.valid h),
      )
