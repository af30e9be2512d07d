-- ===== src/Ringbuf/Threads/Sound.antt =====
-- What holds in every state that the threads of a ringbufT reach.
use libiocp.Base.{
  ℕ, mod_once, tabulate, ◌+◌, ◌-◌, ◌<◌, ◌≡◌, refl, ◌∙◌, sym, ◌⊎◌, inl, inr, Bool, true, false, List,
  ◌++◌, arith, length, ap, ℕ_discrete,
}
use mathlib.Core.List.{append-nil, append_assoc}
use mathlib.Core.Path.{subst}
use libiocp.Queue.Threads.{received}
use libiocp.Ringbuf.{
  Ring, RingStep, returned, blocked, used, put_slot, get_slot, put, put_resumed, get, get_resumed,
  stop, init,
}
use libiocp.Ringbuf.Contents.{
  IsValid, contents, item_at, put_slot-IsValid, get_slot-IsValid, contents-put_slot,
  contents-get_slot, used-put_slot, used-get_slot,
}
use libiocp.Ringbuf.Fifo.{full_iff, marked_put, marked_get}
use libiocp.Ringbuf.Threads.{
  RingPc, empty_wait, empty_woken, full_wait, full_woken, Sharing, accepted, place, end_put,
  end_get, SharingStep, puts, gets, wakes_put, wakes_get, resumes_put, resumes_get, stops, start,
  Shares, here, next,
}

module _ {A : Type 0} (junk : A) where
  -- What `put` does to a valid ring.
  abbrev pub PutEnd : Ring A → A → RingStep A → Type 0
  PutEnd r x (returned k o q) =
      IsValid junk q
      × (q.stop ≡ r.stop)
      × (q.n ≡ r.n)
      × (q.not_full ≡ r.not_full)
      × (contents junk q ≡ contents junk r ++ accepted k x)
      × ((used junk q ≡ used junk r) × (q.not_empty ≡ r.not_empty)
          ⊎ (used junk q ≡ used junk r + 1) × (q.not_empty ≡ true))
  PutEnd r x (blocked q) = (q ≡ r) × (r.stop ≡ false) × (used junk r + 1 ≡ r.n)

  used_marked :
      (r : Ring A)
      → (used junk (record r { not_empty = true }) ≡ used junk r)
        × (used junk (record r { not_full = true }) ≡ used junk r)
  unfolding used
  used_marked r = (refl, refl)

  pub put_end : (r : Ring A) (x : A) (wait : Bool) → IsValid junk r → PutEnd r x (put junk r x wait)
  unfolding put
  put_end r x wait v = elim (ℕ_discrete r.first r.last) [
    | yes e ↦ ground (arith, v, append-nil (contents junk r), (full_iff junk r v).1 e)
    | no room ↦
        let (w, c) = marked_put junk (put_slot junk r x) (put_slot-IsValid junk r x v) in
        ground (
          arith,
          w,
          c,
          v,
          append-nil (contents junk r),
          contents-put_slot junk r x v room,
          used-put_slot junk r x v room,
          used_marked (put_slot junk r x),
        )
  ]

  -- What `get` does to a valid ring.
  abbrev pub GetEnd : Ring A → RingStep A → Type 0
  GetEnd r (returned k o q) =
      IsValid junk q
      × (q.stop ≡ r.stop)
      × (q.n ≡ r.n)
      × (q.not_empty ≡ r.not_empty)
      × (contents junk r ≡ received o ++ contents junk q)
      × ((used junk q ≡ used junk r) × (q.not_full ≡ r.not_full)
          ⊎ (used junk q + 1 ≡ used junk r) × (q.not_full ≡ true))
  GetEnd r (blocked q) = (q ≡ r) × (r.stop ≡ false) × (used junk r ≡ 0)

  pub get_end : (r : Ring A) (wait : Bool) → IsValid junk r → GetEnd r (get junk r wait)
  unfolding get
  get_end r wait v = elim (ℕ_discrete (used junk r) 0) [
    | yes e ↦ ground (arith, v)
    | no some_left ↦
        let (w, c) = marked_get junk (get_slot junk r).1 (get_slot-IsValid junk r v) in
        ground (
          arith,
          w,
          c,
          v,
          contents-get_slot junk r v some_left,
          used-get_slot junk r v some_left,
          used_marked (get_slot junk r).1,
        )
  ]

  -- `full_seen` and `empty_seen`: whoever waits for what is no longer so finds the event set.
  pub record Sound (s : Sharing A) : Type 0 where
    pub valid : IsValid junk s.ring
    pub kept : s.got ++ contents junk s.ring ≡ s.sent
    pub full_seen :
        (i : ℕ) (x : A)
        → s.pc i ≡ full_wait x
        → (s.ring.stop ≡ true) ⊎ (used junk s.ring + 1 < s.ring.n)
        → s.ring.not_full ≡ true
    pub empty_seen :
        (i : ℕ)
        → s.pc i ≡ empty_wait
        → (s.ring.stop ≡ true) ⊎ (0 < used junk s.ring)
        → s.ring.not_empty ≡ true
    pub halts : s.ring.stop ≡ true → (s.ring.not_full ≡ true) × (s.ring.not_empty ≡ true)

  end_put-Sound :
      (s : Sharing A) (i : ℕ) (x : A) (e : RingStep A)
      → PutEnd s.ring x e
      → Sound s
      → Sound (end_put s i x e)
  unfolding end_put
  end_put-Sound s i x (returned k o q) (w, st, n, nf, c, u) v = record {
    valid = w;
    kept =
        ap (λ l. s.got ++ l) c
        ∙ sym (append_assoc s.got (contents junk s.ring) (accepted k x))
        ∙ ap (λ l. l ++ accepted k x) v.kept;
    full_seen = λ j y e h. ground (arith, v.full_seen j y);
    empty_seen = λ j e h. ground (arith, v.empty_seen j);
    halts = λ h. ground (arith, v.halts);
  }
  end_put-Sound s i x (blocked q) (same, runs, full) v =
      subst (λ r. Sound (record s { ring = r; pc = place s.pc i (full_wait x) })) (sym same)
        (record {
          valid = v.valid;
          kept = v.kept;
          full_seen = λ j y e h. ground (arith, v.full_seen j y, runs, full);
          empty_seen = λ j e h. ground (arith, v.empty_seen j);
          halts = v.halts;
        })

  end_get-Sound :
      (s : Sharing A) (i : ℕ) (e : RingStep A) → GetEnd s.ring e → Sound s → Sound (end_get s i e)
  unfolding end_get
  end_get-Sound s i (returned k o q) (w, st, n, ne, c, u) v = record {
    valid = w;
    kept =
        append_assoc s.got (received o) (contents junk q) ∙ ap (λ l. s.got ++ l) (sym c) ∙ v.kept;
    full_seen = λ j y e h. ground (arith, v.full_seen j y);
    empty_seen = λ j e h. ground (arith, v.empty_seen j);
    halts = λ h. ground (arith, v.halts);
  }
  end_get-Sound s i (blocked q) (same, runs, none_left) v =
      subst (λ r. Sound (record s { ring = r; pc = place s.pc i empty_wait })) (sym same)
        (record {
          valid = v.valid;
          kept = v.kept;
          full_seen = λ j y e h. ground (arith, v.full_seen j y);
          empty_seen = λ j e h. ground (arith, v.empty_seen j, runs, none_left);
          halts = v.halts;
        })

  moved-Sound :
      (s : Sharing A) (i : ℕ) (p : RingPc A)
      → (p ≡ empty_woken) ⊎ ((x : A) × (p ≡ full_woken x))
      → Sound s
      → Sound (record s { pc = place s.pc i p })
  moved-Sound s i p woken v = record {
    valid = v.valid;
    kept = v.kept;
    full_seen = λ j y e h. ground (arith, v.full_seen j y);
    empty_seen = λ j e h. ground (arith, v.empty_seen j);
    halts = v.halts;
  }

  stop-Sound : (s : Sharing A) → Sound s → Sound (record s { ring = stop junk s.ring })
  unfolding stop used
  stop-Sound s v = record {
    valid = record {
      length_buf = v.valid.length_buf;
      first_lt = v.valid.first_lt;
      last_lt = v.valid.last_lt;
    };
    kept = v.kept;
    full_seen = λ j y e h. refl;
    empty_seen = λ j e h. refl;
    halts = λ h. (refl, refl);
  }

  SharingStep-Sound : {s t : Sharing A} → SharingStep junk s t → Sound s → Sound t
  unfolding put_resumed get_resumed
  SharingStep-Sound {s = s} (puts i x wait e) v =
      end_put-Sound s i x _ (put_end s.ring x wait v.valid) v
  SharingStep-Sound {s = s} (gets i wait e) v = end_get-Sound s i _ (get_end s.ring wait v.valid) v
  SharingStep-Sound {s = s} (wakes_put i x e h) v = moved-Sound s i (full_woken x) (inr (x, refl)) v
  SharingStep-Sound {s = s} (wakes_get i e h) v = moved-Sound s i empty_woken (inl refl) v
  SharingStep-Sound {s = s} (resumes_put i x e) v =
      end_put-Sound s i x _ (put_end s.ring x true v.valid) v
  SharingStep-Sound {s = s} (resumes_get i e) v =
      end_get-Sound s i _ (get_end s.ring true v.valid) v
  SharingStep-Sound {s = s} stops v = stop-Sound s v

  used-init :
      (r : Ring A) (bound : ℕ) (storage : List A) → used junk (init junk r bound storage) ≡ 0
  unfolding init used
  used-init r bound storage = ground (arith, mod_once (0 + (bound + 1) - bound - 1) (bound + 1))

  start-Sound :
      (r : Ring A) (bound : ℕ) (storage : List A)
      → length storage ≡ bound + 1
      → Sound (start junk r bound storage)
  unfolding start init used
  start-Sound r bound storage e = record {
    valid = record { length_buf = e; first_lt = omega arith; last_lt = omega arith };
    kept =
        ap (λ n. tabulate n (item_at junk (init junk r bound storage))) (used-init r bound storage);
    full_seen = λ j y e h. ground arith;
    empty_seen = λ j e h. ground arith;
    halts = λ h. ground arith;
  }

  -- In every state that threads reach from `init` by `put`, `get` and `stop`: the ring is valid; the
  -- items taken, with those in the ring behind them, are those for which `put` returned 1, in their
  -- order; the event that a waiting thread waits for is set as soon as the ring is stopped or is not
  -- full, or not empty, any more; and after a stop both are.
  pub Shares-Sound :
      {r : Ring A} {bound : ℕ} {storage : List A} {s : Sharing A}
      → length storage ≡ bound + 1
      → Shares junk r bound storage s
      → Sound s
  Shares-Sound {r = r} {bound = bound} {storage = storage} e here = start-Sound r bound storage e
  Shares-Sound e (next h st) = SharingStep-Sound st (Shares-Sound e h)
