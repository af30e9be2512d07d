-- ===== src/Loop/Running.antt =====
-- When the loop of the application returns.
use mathlib.Core.List.{append_assoc}
use libiocp.Base.{
  suc, ◌≡◌, ◌≢◌, refl, sym, ap, ◌∙◌, true, false, List, [], ◌∷◌, ◌++◌, some, arith, length,
  Bool-cases, inl, inr,
}
use libiocp.Package.{NetStatus, Package}
use libiocp.Queue.{Queue}
use libiocp.Queue.Fifo.{IsValid}
use libiocp.Loop.{Loop, Callback, callback, count_connect, dispatch, quit_loop, ended, run_loop}
use libiocp.Loop.Dispatch.{tick_serves}

module _ {A : Type 0} (imp : Callback → Loop → A → Loop × A) where
  -- A callback may put packages behind those on the queue, as `send` and `recv` do, and may ask the
  -- loop to quit; it does not take packages from the queue or stop it.
  pub record OnlyPuts (l m : Loop) : Type 0 where
    pub valid : IsValid m.queue
    pub runs : m.queue.stop ≡ false
    pub more : List Package
    pub behind : m.queue.items ≡ l.queue.items ++ more

  abbrev pub IsOrderly : Type 0
  IsOrderly =
      (c : Callback) (l : Loop) (a : A)
      → IsValid l.queue
      → l.queue.stop ≡ false
      → OnlyPuts l (imp c l a).0

  -- Packages that lead to a callback, which are all but `NET_quit`.
  abbrev pub Ordinary : List Package → Type 0
  Ordinary [] = Unit
  Ordinary (p ∷ ps) = (p.status ≢ NetStatus.quit) × Ordinary ps

  callback-some : (s : NetStatus) → s ≢ NetStatus.quit → (c : Callback) × (callback s ≡ some c)
  callback-some NetStatus.connected ne = (_, refl)
  callback-some NetStatus.disconnected ne = (_, refl)
  callback-some NetStatus.send_finished ne = (_, refl)
  callback-some NetStatus.send_failed ne = (_, refl)
  callback-some NetStatus.recv_finished ne = (_, refl)
  callback-some NetStatus.recv_failed ne = (_, refl)
  callback-some NetStatus.noop ne = (_, refl)
  callback-some NetStatus.send_error ne = (_, refl)
  callback-some NetStatus.recv_error ne = (_, refl)
  callback-some NetStatus.protocol_error ne = (_, refl)
  callback-some NetStatus.quit ne = absurd (ne refl)

  -- The callback of a package that has been taken from the queue.
  abbrev pub call_on : Callback → Queue Package → Package → Loop → A → Loop × A
  call_on c q p l a =
      imp c
        (record l {
          queue = q;
          pack = p;
          session = p.session;
          connect_count = count_connect p.status l.connect_count;
        })
        a

  -- The callbacks for packages that stand at the front of the queue, one after the other.
  pub data Calls : Loop → A → List Package → Loop → A → Type 0 where
    none_left : (l : Loop) (a : A) → Calls l a [] l a
    called :
        (l : Loop) (a : A) (p : Package) (ps : List Package) (c : Callback) (q : Queue Package)
        (m : Loop) (b : A)
        → callback p.status ≡ some c
        → l.queue.items ≡ p ∷ q.items
        → Calls (call_on c q p l a).0 (call_on c q p l a).1 ps m b
        → Calls l a (p ∷ ps) m b

  -- What the loop has done when it ends with `m` and `b`: all callbacks up to the `NET_quit`, or those
  -- up to one that asked it to quit.
  pub data Served (l : Loop) (a : A) (ps : List Package) (m : Loop) (b : A) : Type 0 where
    all_served : (n : Loop) → Calls l a ps n b → Served l a ps m b
    asked :
        (front back : List Package) → ps ≡ front ++ back → Calls l a front m b → Served l a ps m b

  quit-dispatch :
      (l : Loop) (a : A)
      → l.pack.status ≡ NetStatus.quit
      → ((dispatch imp l a).1 ≡ a) × ((dispatch imp l a).0.quiting ≡ true)
  unfolding dispatch quit_loop
  quit-dispatch l a e = ground (arith)

  ordinary-dispatch :
      (c : Callback) (q : Queue Package) (p : Package) (l : Loop) (a : A)
      → callback p.status ≡ some c
      → dispatch imp (record l { queue = q; pack = p }) a ≡ call_on c q p l a
  unfolding dispatch
  ordinary-dispatch c q p l a e = rw e refl

  -- One more package in front.
  Served-called :
      (p : Package) (ps : List Package) (c : Callback) (q : Queue Package) (l m : Loop) (a b : A)
      → callback p.status ≡ some c
      → l.queue.items ≡ p ∷ q.items
      → Served (call_on c q p l a).0 (call_on c q p l a).1 ps m b
      → Served l a (p ∷ ps) m b
  Served-called p ps c q l m a b e i (all_served n v) = all_served n (called l a p ps c q n b e i v)
  Served-called p ps c q l m a b e i (asked front back parts v) =
      asked (p ∷ front) back (ap (λ xs. p ∷ xs) parts) (called l a p front c q m b e i v)

  -- With a `NET_quit` on the queue the loop returns at the latest after its turn, without waiting, whatever
  -- the callbacks put behind it: it has called the callbacks of the packages in front, in their order,
  -- all of them or those up to one that asked it to quit.
  pub quit_returns :
      (l : Loop) (a : A) (ps : List Package) (p : Package) (rest : List Package)
      → IsOrderly
      → IsValid l.queue
      → l.queue.stop ≡ false
      → Ordinary ps
      → p.status ≡ NetStatus.quit
      → l.queue.items ≡ ps ++ p ∷ rest
      → (m : Loop) × (b : A) × (run_loop imp (suc (length ps)) l a ≡ ended m b)
        × (m.quiting ≡ true)
        × Served l a ps m b
  unfolding run_loop
  quit_returns l a [] p rest orderly v runs all status e =
      let t = tick_serves imp l a p rest v runs e in
      let d = dispatch imp (record l { queue = t.queue; pack = p }) a in
      let (same, quits) = quit-dispatch (record l { queue = t.queue; pack = p }) a status in
      (
        d.0,
        a,
        rw (run_loop, t.dispatched, quits) (ap (ended d.0) same),
        quits,
        all_served l (none_left l a),
      )
  quit_returns l a (x ∷ ps) p rest orderly v runs (ne, all) status e =
      let t = tick_serves imp l a x (ps ++ p ∷ rest) v runs e in
      let (c, is_c) = callback-some x.status ne in
      let d = call_on c t.queue x l a in
      let turn = ordinary-dispatch c t.queue x l a is_c in
      let o = orderly c _ a t.valid t.runs in
      let taken : l.queue.items ≡ x ∷ t.queue.items = e ∙ ap (λ xs. x ∷ xs) (sym t.left) in
      elim (Bool-cases d.0.quiting) [
        | inl quits ↦ (
          d.0,
          d.1,
          rw (run_loop, t.dispatched, turn, quits) refl,
          quits,
          asked (x ∷ []) ps refl (called l a x [] c t.queue d.0 d.1 is_c taken (none_left d.0 d.1)),
        )
        | inr goes_on ↦
            let left : d.0.queue.items ≡ ps ++ p ∷ (rest ++ o.more) =
              o.behind ∙ ap (λ xs. xs ++ o.more) t.left ∙ append_assoc ps (p ∷ rest) o.more in
            let (m, b, ran_to, quits, served) =
              quit_returns d.0 d.1 ps p (rest ++ o.more) orderly o.valid o.runs all status left in
            (
              m,
              b,
              rw (run_loop, t.dispatched, turn, goes_on) ran_to,
              quits,
              Served-called x ps c t.queue l m a b is_c taken served,
            )
      ]
