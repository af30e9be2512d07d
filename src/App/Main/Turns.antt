-- ===== src/App/Main/Turns.antt =====
-- What one turn of the loop of `main` does.
use libiocp.Base.{
  ◌≡◌, ◌≢◌, ◌⊎◌, inl, inr, refl, Bool, true, false, List, [], ◌∷◌, Bool-cases, if◌then◌else◌,
}
use libiocp.Package.{Package}
use libiocp.Queue.{Queue}
use libiocp.Queue.Fifo.{IsValid}
use libiocp.Loop.{Loop, Callback, Tick, peek, dispatch, tick}
use libiocp.Loop.Dispatch.{tick_serves, peek_iff}
use libiocp.App.Main.{MainTurn, breaks, turns, after_tick, main_turn}

nothing :
    (l : Loop)
    → IsValid l.queue
    → peek l ≡ false
    → (b : Bool) (xs : List Package) → l.queue.stop ≡ b
    → l.queue.items ≡ xs
    → (l.queue.stop ≡ true) ⊎ (l.queue.items ≡ [])
nothing l v idle true xs s e = inl s
nothing l v idle false [] s e = inr e
nothing l v idle false (p ∷ ps) s e = let full = (peek_iff l v).1 (s, λ empty. cc (e, empty)) in cc

module _ {A : Type 0} (imp : Callback → Loop → A → Loop × A) where
  -- A turn that takes the oldest package `p` and dispatches it.
  pub record Served (l : Loop) (a : A) (t : MainTurn A) : Type 0 where
    pub pack : Package
    pub rest : List Package
    pub queue : Queue Package
    pub oldest : l.queue.items ≡ pack ∷ rest
    pub left : queue.items ≡ rest
    pub turned :
        let d = dispatch imp (record l { queue = queue; pack = pack }) a in t ≡ turns d.0 d.1

  -- A turn by the two tests and the tick.
  turn_as :
      (l : Loop) (a : A) (q f : Bool) (t : Tick A)
      → l.quiting ≡ q
      → peek l ≡ f
      → tick imp l a ≡ t
      → main_turn imp l a ≡ (if q then breaks l a else if f then after_tick imp t else turns l a)
  unfolding main_turn
  turn_as l a q f t eq ef et i =
      if eq i then breaks l a else if ef i then after_tick imp (et i) else turns l a

  serves :
      (l : Loop) (a : A) (items : List Package)
      → IsValid l.queue
      → l.quiting ≡ false
      → peek l ≡ true
      → l.queue.stop ≡ false
      → l.queue.items ≢ []
      → l.queue.items ≡ items
      → Served l a (main_turn imp l a)
  serves l a [] v on full runs some_left e = absurd (some_left e)
  serves l a (p ∷ ps) v on full runs some_left e =
      let t = tick_serves imp l a p ps v runs e in
      record {
        pack = p;
        rest = ps;
        queue = t.queue;
        oldest = e;
        left = t.left;
        turned = turn_as l a false true _ on full t.dispatched;
      }

  -- A turn leaves the loop if it has been asked to quit. Else it takes the oldest package, if the queue
  -- runs and holds one, and where the queue is empty or stopped it changes nothing: it never waits,
  -- and never dispatches a package that it has not taken.
  pub main_turn_lem :
      (l : Loop) (a : A)
      → IsValid l.queue
      → ((l.quiting ≡ true) × (main_turn imp l a ≡ breaks l a))
        ⊎ ((l.quiting ≡ false) × (l.queue.stop ≡ false) × Served l a (main_turn imp l a))
        ⊎ ((l.quiting ≡ false)
            × ((l.queue.stop ≡ true) ⊎ (l.queue.items ≡ []))
            × (main_turn imp l a ≡ turns l a))
  main_turn_lem l a v = elim (Bool-cases l.quiting) [
    | inl asked ↦ inl (asked, turn_as l a true (peek l) _ asked refl refl)
    | inr on ↦ elim (Bool-cases (peek l)) [
      | inl full ↦
          let (runs, some_left) = (peek_iff l v).0 full in
          inr (inl (on, runs, serves l a l.queue.items v on full runs some_left refl))
      | inr idle ↦ inr (
          inr (
            on,
            nothing l v idle l.queue.stop l.queue.items refl refl,
            turn_as l a false false _ on idle refl,
          ))
    ]
  ]
