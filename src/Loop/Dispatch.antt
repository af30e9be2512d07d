-- ===== src/Loop/Dispatch.antt =====
-- Which packages reach the application, and in which order.
use libiocp.Base.{
  ℕ, zero, suc, ◌≡◌, refl, ap, ◌∙◌, ◌≢◌, ◌↔◌, true, false, List, [], ◌∷◌, Option, none, some, arith,
  length, ℤ,
}
use libiocp.Package.{Package}
use libiocp.Queue.{Queue, GetStep, returned, blocked, get, size}
use libiocp.Queue.Fifo.{IsValid, Served, get-Served, stopped, after, get-IsValid, stop-get}
use libiocp.Loop.{
  run_callback, Loop, Callback, callback, count_connect, Tick, ran, waits, peek, dispatch, tick_got,
  tick, quit_loop,
}

module _ {A : Type 0} (imp : Callback → Loop → A → Loop × A) where
  abbrev pub finished : Loop × A → Tick A
  finished (l, a) = ran l a

  -- A tick of `p`, which leaves `ps` on a queue that still runs.
  pub record ServedTick (l : Loop) (a : A) (p : Package) (ps : List Package) (t : Tick A)
      : Type 0 where
    pub queue : Queue Package
    pub left : queue.items ≡ ps
    pub valid : IsValid queue
    pub runs : queue.stop ≡ false
    pub dispatched : t ≡ finished (dispatch imp (record l { queue = queue; pack = p }) a)

  tick_as :
      (l : Loop) (a : A) (xs : List Package) (g : GetStep Package)
      → Served xs true g
      → IsValid (after g)
      → (after g).stop ≡ false
      → (p : Package) (ps : List Package) → xs ≡ p ∷ ps
      → ServedTick l a p ps (tick_got imp l a g)
  unfolding tick_got
  tick_as l a [] g s v o p ps e = cc
  tick_as l a (x ∷ xs) (returned r t q) s v o p ps e = record {
    queue = q;
    left = ground arith;
    valid = v;
    runs = o;
    dispatched = ground arith;
  }
  tick_as l a (x ∷ xs) (blocked q) s v o p ps e = absurd s

  -- While the queue runs and holds a package, `tick` takes the oldest, without waiting, and
  -- dispatches exactly that one; the others stay on the queue, which goes on running.
  pub tick_serves :
      (l : Loop) (a : A) (p : Package) (ps : List Package)
      → IsValid l.queue
      → l.queue.stop ≡ false
      → l.queue.items ≡ p ∷ ps
      → ServedTick l a p ps (tick imp l a)
  unfolding tick
  tick_serves l a p ps v runs e =
      tick_as l a l.queue.items (get l.queue true) (get-Served l.queue true v runs)
        (get-IsValid l.queue true v) (stop-get l.queue true ∙ runs) p ps e

  -- Once the queue is stopped, `tick` dispatches the package of the tick before again.
  pub tick_stopped :
      (l : Loop) (a : A) → l.queue.stop ≡ true → tick imp l a ≡ finished (dispatch imp l a)
  unfolding tick tick_got
  tick_stopped l a halted = ap (tick_got imp l a) (stopped l.queue l.pack true halted).1

  unfoldable pub run_ticks : ℕ → Loop → A → Tick A
  run_ticks zero l a = ran l a
  run_ticks (suc n) l a = elim (tick imp l a) [ ran m b ↦ run_ticks n m b | waits m b ↦ waits m b ]

  -- The callbacks leave the queue and the count to the loop.
  abbrev pub IsQuiet : Type 0
  IsQuiet =
      (c : Callback) (l : Loop) (a : A)
      → ((imp c l a).0.queue ≡ l.queue) × ((imp c l a).0.connect_count ≡ l.connect_count)

  -- The count of connections after the packages `ps`.
  abbrev pub tally : List Package → ℤ → ℤ
  tally [] n = n
  tally (p ∷ ps) n = tally ps (count_connect p.status n)

  callback-IsQuiet :
      IsQuiet
      → (o : Option Callback) (l : Loop) (a : A)
      → ((run_callback imp o l a).0.queue ≡ l.queue)
        × ((run_callback imp o l a).0.connect_count ≡ l.connect_count)
  unfolding quit_loop
  callback-IsQuiet quiet none l a = (refl, refl)
  callback-IsQuiet quiet (some c) l a = quiet c l a

  dispatch-IsQuiet :
      IsQuiet
      → (l : Loop) (a : A)
      → ((dispatch imp l a).0.queue ≡ l.queue)
        × ((dispatch imp l a).0.connect_count ≡ count_connect l.pack.status l.connect_count)
  unfolding dispatch
  dispatch-IsQuiet quiet l a =
      callback-IsQuiet quiet (callback l.pack.status)
        (record l {
          session = l.pack.session;
          connect_count = count_connect l.pack.status l.connect_count;
        })
        a

  -- As many ticks as there are packages serve them all without waiting, and count each
  -- connection that came up and each that ended once, in the order of the packages.
  pub ticks_count :
      (l : Loop) (a : A) (ps : List Package)
      → IsQuiet
      → IsValid l.queue
      → l.queue.stop ≡ false
      → l.queue.items ≡ ps
      → (m : Loop) × (b : A) × (run_ticks (length ps) l a ≡ ran m b)
        × (m.queue.items ≡ [])
        × (m.connect_count ≡ tally ps l.connect_count)
  unfolding run_ticks
  ticks_count l a [] quiet v runs e = (l, a, refl, e, refl)
  ticks_count l a (p ∷ ps) quiet v runs e =
      let t = tick_serves l a p ps v runs e in
      let d = dispatch imp (record l { queue = t.queue; pack = p }) a in
      let (q, n) = dispatch-IsQuiet quiet (record l { queue = t.queue; pack = p }) a in
      let (m, b, ticked, gone, count) =
        ticks_count d.0 d.1 ps quiet (rw q t.valid) (rw q t.runs) (rw q t.left) in
      (m, b, rw (run_ticks, t.dispatched) ticked, gone, count ∙ ap (tally ps) n)

peek_as :
    (l : Loop) (xs : List Package)
    → l.queue.items ≡ xs
    → l.queue.count ≡ length xs
    → (peek l ≡ true) ↔ ((l.queue.stop ≡ false) × (l.queue.items ≢ []))
unfolding peek size
peek_as l [] e c = (λ h. ground arith, λ h. absurd (h.1 e))
peek_as l (x ∷ xs) e c = (λ h. (ground arith, λ e'. cc), λ h. ground (arith, h.0))

-- `peek` answers true exactly if the queue runs and holds a package.
pub peek_iff :
    (l : Loop) → IsValid l.queue → (peek l ≡ true) ↔ ((l.queue.stop ≡ false) × (l.queue.items ≢ []))
peek_iff l v = peek_as l l.queue.items refl v.counted
