-- ===== src/Queue/Fifo.antt =====
-- The calls of queueT one after another: the count, the order, and what a stop does.
use libiocp.Base.{
  ◌-◌, ◌≡◌, refl, Bool, true, false, List, [], ◌∷◌, ◌++◌, none, some, arith, length, length-append,
  minus_one, zero_int, one,
}
use libiocp.Queue.{Queue, GetStep, returned, blocked, size, put, get, resume, pop_front}

module _ {A : Type 0} where
  pub record IsValid (q : Queue A) : Type 0 where
    pub counted : q.count ≡ length q.items

  -- The queue that a critical section leaves behind.
  abbrev pub after : GetStep A → Queue A
  after (returned r t q) = q
  after (blocked q) = q

  pub put-IsValid : (q : Queue A) (x : A) → IsValid q → IsValid (put q x).0
  unfolding put
  put-IsValid q x v = ground (arith, length-append q.items (x ∷ []))

  pub length-pop_front : (xs : List A) → length (pop_front xs) ≡ length xs - 1
  length-pop_front [] = omega arith
  length-pop_front (x ∷ xs) = omega arith

  pub get-IsValid : (q : Queue A) (wait : Bool) → IsValid q → IsValid (after (get q wait))
  unfolding get
  get-IsValid q wait v = ground (arith, length-pop_front q.items)

  pub resume-IsValid : (q : Queue A) → IsValid q → IsValid (after (resume q))
  unfolding resume
  resume-IsValid q v = ground (arith, length-pop_front q.items)

  -- What a client of a queue that runs sees of `get`: the oldest item, or none there.
  abbrev pub Served : List A → Bool → GetStep A → Type 0
  Served [] wait (returned r t q) = (wait ≡ false) × (r ≡ zero_int) × (t ≡ none) × (q.items ≡ [])
  Served [] wait (blocked q) = (wait ≡ true) × (q.items ≡ [])
  Served (x ∷ xs) wait (returned r t q) = (r ≡ one) × (t ≡ some x) × (q.items ≡ xs)
  Served (x ∷ xs) wait (blocked q) = ⊥

  get-Served_as :
      (q : Queue A) (wait : Bool) (xs : List A)
      → q.items ≡ xs
      → q.stop ≡ false
      → q.count ≡ length xs
      → Served xs wait (get q wait)
  unfolding get
  get-Served_as q wait [] e s c = ground arith
  get-Served_as q wait (x ∷ xs) e s c = ground arith

  -- While the queue runs, `get` serves the items in the order of the calls of `put`.
  pub get-Served :
      (q : Queue A) (wait : Bool) → IsValid q → q.stop ≡ false → Served q.items wait (get q wait)
  get-Served q wait v s = get-Served_as q wait q.items refl s v.counted

  pub put-Served :
      (q : Queue A) (x : A)
      → q.stop ≡ false
      → ((put q x).1 ≡ one) × ((put q x).0.items ≡ q.items ++ x ∷ [])
  unfolding put
  put-Served q x s = ground arith

  -- A stopped queue takes nothing and yields nothing, whatever it still holds.
  pub stopped :
      (q : Queue A) (x : A) (wait : Bool)
      → q.stop ≡ true
      → (put q x ≡ (q, minus_one))
        × (get q wait ≡ returned minus_one none q)
        × (resume q ≡ returned minus_one none q)
        × (size q ≡ 0)
  unfolding put get resume size
  stopped q x wait s = (ground arith, ground arith, ground arith, ground arith)

  pub stop-get : (q : Queue A) (wait : Bool) → (after (get q wait)).stop ≡ q.stop
  unfolding get
  stop-get q wait = ground arith
