-- ===== src/Ringbuf/Fifo.antt =====
-- ringbufT as a bounded list that is served in order.
use libiocp.Base.{
  ℕ, ◌+◌, ◌<◌, ◌≡◌, ◌≢◌, refl, ap, ◌⊎◌, Bool, true, false, List, [], ◌∷◌, ◌++◌, none, some, arith,
  length, length-tabulate, zero_int, one, ℕ_discrete,
}
use libiocp.Ringbuf.{
  Ring, RingStep, returned, blocked, used, put_slot, get_slot, put, get, get_resumed, stop,
}
use libiocp.Ringbuf.Contents.{
  IsValid, contents, put_slot-IsValid, get_slot-IsValid, contents-put_slot, contents-get_slot,
  used_once, used-lt, item_at,
}

module _ {A : Type 0} (junk : A) where
  -- What a client sees of `put` on a ring of `n` slots that runs and holds `xs`.
  abbrev pub Stored : ℕ → List A → A → Bool → RingStep A → Type 0
  Stored n xs t wait (returned k o r) =
      IsValid junk r
      × (((length xs + 1 < n) × (k ≡ one) × (contents junk r ≡ xs ++ t ∷ []))
          ⊎ ((length xs + 1 ≡ n) × (wait ≡ false) × (k ≡ zero_int) × (contents junk r ≡ xs)))
  Stored n xs t wait (blocked r) =
      IsValid junk r × (length xs + 1 ≡ n) × (wait ≡ true) × (contents junk r ≡ xs)

  -- What a client sees of `get`.
  abbrev pub Taken : List A → Bool → RingStep A → Type 0
  Taken [] wait (returned k o r) =
      IsValid junk r × (wait ≡ false) × (k ≡ zero_int) × (o ≡ none) × (contents junk r ≡ [])
  Taken [] wait (blocked r) = IsValid junk r × (wait ≡ true) × (contents junk r ≡ [])
  Taken (x ∷ xs) wait (returned k o r) =
      IsValid junk r × (k ≡ one) × (o ≡ some x) × (contents junk r ≡ xs)
  Taken (x ∷ xs) wait (blocked r) = ⊥

  length-contents : (r : Ring A) → length (contents junk r) ≡ used junk r
  length-contents r = length-tabulate (used junk r) (item_at junk r)

  pub full_iff :
      (r : Ring A)
      → IsValid junk r
      → (used junk r + 1 ≡ r.n → r.first ≡ r.last) × (r.first ≡ r.last → used junk r + 1 ≡ r.n)
  full_iff r v = (
    λ e. ground (arith, v.first_lt, v.last_lt, used_once junk r v),
    λ e. ground (arith, v.first_lt, v.last_lt, used_once junk r v),
  )

  pub marked_put :
      (r : Ring A)
      → IsValid junk r
      → IsValid junk (record r { not_empty = true })
        × (contents junk (record r { not_empty = true }) ≡ contents junk r)
  unfolding used
  marked_put r v =
      (record { length_buf = v.length_buf; first_lt = v.first_lt; last_lt = v.last_lt }, refl)

  pub marked_get :
      (r : Ring A)
      → IsValid junk r
      → IsValid junk (record r { not_full = true })
        × (contents junk (record r { not_full = true }) ≡ contents junk r)
  unfolding used
  marked_get r v =
      (record { length_buf = v.length_buf; first_lt = v.first_lt; last_lt = v.last_lt }, refl)

  -- `put` on a valid ring that runs appends the item unless all slots but one are taken; then it
  -- waits, or returns 0 if it may not wait, and changes nothing of the contents.
  pub put-Stored :
      (r : Ring A) (t : A) (wait : Bool)
      → IsValid junk r
      → r.stop ≡ false
      → Stored r.n (contents junk r) t wait (put junk r t wait)
  unfolding put
  put-Stored r t wait v runs = elim (ℕ_discrete r.first r.last) [
    | yes e ↦ ground (arith, v, length-contents r, (full_iff r v).1 e)
    | no room ↦
        let (w, c) = marked_put (put_slot junk r t) (put_slot-IsValid junk r t v) in
        ground (
          arith,
          w,
          c,
          contents-put_slot junk r t v room,
          length-contents r,
          (full_iff r v).0,
          used-lt junk r v,
        )
  ]

  get_as :
      (r : Ring A) (wait : Bool) (xs : List A)
      → contents junk r ≡ xs
      → IsValid junk r
      → r.stop ≡ false
      → Taken xs wait (get junk r wait)
  unfolding get
  get_as r wait [] e v runs = ground (arith, v, e, length-contents r)
  get_as r wait (x ∷ xs) e v runs =
      let some_left : used junk r ≢ 0 = λ z. omega (arith, z, ap length e, length-contents r) in
      let (w, c) = marked_get (get_slot junk r).1 (get_slot-IsValid junk r v) in
      ground (arith, w, c, e, contents-get_slot junk r v some_left)

  -- `get` on a valid ring that runs takes the oldest item; if there is none it waits, or returns 0
  -- if it may not wait.
  pub get-Taken :
      (r : Ring A) (wait : Bool)
      → IsValid junk r
      → r.stop ≡ false
      → Taken (contents junk r) wait (get junk r wait)
  unfolding get
  get-Taken r wait v runs = get_as r wait (contents junk r) refl v runs

  -- The calls that threads make on a ring in use.
  pub data Call : Type 0 where
    puts : A → Bool → Call
    gets : Bool → Call
    stops : Call

  abbrev left : RingStep A → Ring A
  left (returned k o r) = r
  left (blocked r) = r

  unfoldable pub run : Ring A → List Call → Ring A
  run r [] = r
  run r (puts t wait ∷ cs) = run (left (put junk r t wait)) cs
  run r (gets wait ∷ cs) = run (left (get junk r wait)) cs
  run r (stops ∷ cs) = run (stop junk r) cs

  set-run : (r : Ring A) (cs : List Call) → r.not_empty ≡ true → (run r cs).not_empty ≡ true
  unfolding run put get stop put_slot get_slot
  set-run r [] set = set
  set-run r (puts t wait ∷ cs) set = set-run (left (put junk r t wait)) cs (ground arith)
  set-run r (gets wait ∷ cs) set = set-run (left (get junk r wait)) cs (ground arith)
  set-run r (stops ∷ cs) set = set-run (stop junk r) cs refl

  -- Once the event of `_cond_not_empty` is set, it stays set whatever calls follow; so a thread
  -- that waits in `get` on an empty ring which runs finds it set, and waits again at once.
  pub getter_spins :
      (r : Ring A) (cs : List Call)
      → r.not_empty ≡ true
      → (run r cs).stop ≡ false
      → used junk (run r cs) ≡ 0
      → ((run r cs).not_empty ≡ true) × (get_resumed junk (run r cs) ≡ blocked (run r cs))
  unfolding get_resumed get
  getter_spins r cs set runs none_left = (set-run r cs set, ground arith)
