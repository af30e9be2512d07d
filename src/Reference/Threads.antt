-- ===== src/Reference/Threads.antt =====
-- threadrefT in inc/sglib/sglib_refT.h, with its holders on several threads.
use libiocp.Base.{
  ℕ, zero, suc, ◌+◌, ◌-◌, ◌<◌, ◌≡◌, refl, sym, ap, ◌∙◌, ◌==◌, arith, pos, inc, if◌then◌else◌,
}
use libiocp.Reference.{Counted, threadref_create, ref, threadref_dec}

-- `holders` hold a reference that they have not begun to give back. Behind the decrement, `destroying`
-- threads are about to call `destroy`, and `reading` threads to read `_ref` for the result. `late`
-- counts the reads behind a `destroy`.
pub record Holding : Type 0 where
  pub counted : Counted
  pub holders : ℕ
  pub destroying : ℕ
  pub reading : ℕ
  pub late : ℕ

-- The object has been made, and who made it holds it.
unfoldable pub made : Holding
unfolding threadref_create
made = record { counted = threadref_create; holders = 1; destroying = 0; reading = 0; late = 0 }

-- A holder begins to give its reference back.
unfoldable pub give : Holding → Holding
unfolding threadref_dec
give h =
    let (c, last) = threadref_dec h.counted in
    let g = record h { counted = c; holders = h.holders - 1 } in
    if last
    then record g { destroying = g.destroying + 1 }
    else record g { reading = g.reading + 1 }

unfoldable pub finish : Holding → Holding
finish h = record h {
  counted = record (h.counted) { destroyed = h.counted.destroyed + 1 };
  destroying = h.destroying - 1;
}

unfoldable pub read_ref : Holding → Holding
read_ref h = record h {
  reading = h.reading - 1;
  late = (if h.counted.destroyed == 0 then h.late else h.late + 1);
}

-- Who holds a reference may take one more, for itself or another.
pub data HoldStep (h : Holding) : Holding → Type 0 where
  takes :
      0 < h.holders → HoldStep h (record h { counted = (ref h.counted).0; holders = h.holders + 1 })
  gives : 0 < h.holders → HoldStep h (give h)
  destroys : 0 < h.destroying → HoldStep h (finish h)
  reads : 0 < h.reading → HoldStep h (read_ref h)

pub data HoldReach : Holding → Type 0 where
  here : HoldReach made
  next : {h k : Holding} → HoldReach h → HoldStep h k → HoldReach k

-- The count is the number of holders. The object is destroyed, or about to be, exactly if nobody
-- holds it, and by one thread.
pub record Counts (h : Holding) : Type 0 where
  pub exact : h.counted.refs ≡ pos h.holders
  pub once : h.destroying + h.counted.destroyed ≡ (if h.holders == 0 then 1 else 0)

give_facts :
    (h : Holding) (n : ℕ)
    → h.counted.refs ≡ pos (suc n)
    → ((give h).counted.refs ≡ pos n)
      × ((give h).holders ≡ h.holders - 1)
      × ((give h).destroying + (give h).counted.destroyed
          ≡ h.destroying + h.counted.destroyed + (if n == 0 then 1 else 0))
unfolding give threadref_dec
give_facts h zero r = rw r (refl, refl, omega arith)
give_facts h (suc n) r = rw r (refl, refl, ground arith)

give-Counts : (h : Holding) (n : ℕ) → h.holders ≡ n → 0 < n → Counts h → Counts (give h)
give-Counts h zero e lt c = absurd (omega arith)
give-Counts h (suc n) e lt c =
    let (refs, holders, sum) = give_facts h n (c.exact ∙ ap pos e) in
    let left : (give h).holders ≡ n = omega arith in
    record { exact = refs ∙ ap pos (sym left); once = ground (arith, sum, c.once, left, e) }

ref-refs : (c : Counted) (n : ℕ) → c.refs ≡ pos n → (ref c).0.refs ≡ pos (n + 1)
unfolding ref
ref-refs c n e = ap inc e ∙ ap pos (omega arith)

step-Counts : {h k : Holding} → HoldStep h k → Counts h → Counts k
unfolding finish read_ref ref
step-Counts {h = h} (takes lt) c = record {
  exact = ref-refs h.counted h.holders c.exact;
  once = ground (arith, c.once);
}
step-Counts {h = h} (gives lt) c = give-Counts h h.holders refl lt c
step-Counts {h = h} (destroys lt) c = record { exact = c.exact; once = ground (arith, c.once) }
step-Counts {h = h} (reads lt) c = record { exact = c.exact; once = c.once }

-- In every reachable state of the threads that hold references to an object the count is the number
-- of those that have not begun to give theirs back, and the object is destroyed, or one thread is
-- about to destroy it, exactly if there is none: never under a holder, and never twice.
pub HoldReach-Counts : {h : Holding} → HoldReach h → Counts h
unfolding made threadref_create
HoldReach-Counts here = record { exact = refl; once = refl }
HoldReach-Counts (next r s) = step-Counts s (HoldReach-Counts r)

-- The result of `deref` is read behind its decrement: of two holders that give their references back,
-- the first can read the count behind the end of the object.
read_late : (h : Holding) × HoldReach h × (h.late ≡ 1)
unfolding made threadref_create ref give threadref_dec finish read_ref
read_late =
    let two = next here (takes (omega arith)) in
    let one = next two (gives (omega arith)) in
    let none_left = next one (gives (omega arith)) in
    let gone = next none_left (destroys (omega arith)) in (_, next gone (reads (omega arith)), refl)
