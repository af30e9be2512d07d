-- ===== src/Connector/Opening.antt =====
-- What `sessions_open` leaves behind on success and on failure.
use libiocp.Base.{
  ℕ, suc, ◌+◌, ◌<◌, ◌≡◌, ◌≢◌, ◌⊎◌, inl, inr, refl, ap, Bool, true, false, List, [], ◌∷◌, arith,
  length, ℕ_discrete, ◌==◌, if◌then◌else◌,
}
use libiocp.Boss.{Boss, session_join}
use libiocp.Boss.Ids.{IsValid, join-IsValid}
use libiocp.Listener.Peer.{peer_create, peer_open}
use libiocp.Connector.{Client, Connection, open_turn, sessions_open}

-- How many connections come up before the first that fails.
pub leading : List Connection → ℕ
leading [] = 0
leading (t ∷ ts) =
    let rest = leading ts in if (peer_open peer_create t.answers).1 == 0 then 0 else suc rest

-- The client `d` after the loop has ended with `r`, `made` connections having come up.
pub record Opened (c : Client) (ts : List Connection) (d : Client) (r : Bool) : Type 0 where
  pub made : ℕ
  pub made_all : made ≡ leading ts
  pub all_of : r ≡ true → made ≡ length ts
  pub stops : r ≡ false → made < length ts
  pub ids : d.boss.count ≡ c.boss.count + made
  pub valid : IsValid d.boss

join_count :
    (b : Boss) (t : Connection) (socket : ℕ)
    → (session_join b socket t.memory t.handle t.code).0.count ≡ b.count + 1
unfolding session_join
join_count b t socket = ground arith

open_turn_cases :
    (c : Client) (t : Connection)
    → IsValid c.boss
    → IsValid (open_turn c t).0.boss
      × (((peer_open peer_create t.answers).1 ≢ 0)
            × ((open_turn c t).1 ≡ true)
            × ((open_turn c t).0.boss.count ≡ c.boss.count + 1)
          ⊎ ((peer_open peer_create t.answers).1 ≡ 0)
            × ((open_turn c t).1 ≡ false)
            × ((open_turn c t).0.boss ≡ c.boss))
unfolding open_turn
open_turn_cases c t v =
    let p = (peer_open peer_create t.answers).0 in
    elim (ℕ_discrete (peer_open peer_create t.answers).1 0) [
      | yes e ↦ rw e (v, inr (refl, refl, refl))
      | no ne ↦
          let b = join-IsValid c.boss p.socket t.memory t.handle t.code v in
          let n = join_count c.boss t p.socket in ground (arith, b, n)
    ]

-- `sessions_open` goes through the connections in order and stops at the first that does not come
-- up: it returns true exactly if all came up, each that did has taken one id, and the ids in the
-- vector stay distinct.
pub sessions_open-Opened :
    (c : Client) (ts : List Connection)
    → IsValid c.boss
    → Opened c ts (sessions_open c ts).0 (sessions_open c ts).1
unfolding sessions_open leading
sessions_open-Opened c [] v = record {
  made = 0;
  made_all = refl;
  all_of = λ e. refl;
  stops = λ e. cc;
  ids = omega arith;
  valid = v;
}
sessions_open-Opened c (t ∷ ts) v =
    let (valid, which) = open_turn_cases c t v in
    elim which [
      | inl (up, on, n) ↦
          let o = sessions_open-Opened (open_turn c t).0 ts valid in
          rw on (record {
            made = o.made + 1;
            made_all = ground (arith, o.made_all, up);
            all_of = λ e. omega (arith, o.all_of e);
            stops = λ e. omega (arith, o.stops e);
            ids = omega (arith, o.ids, n);
            valid = o.valid;
          })
      | inr (down, off, same) ↦ rw off (record {
        made = 0;
        made_all = rw down refl;
        all_of = λ e. cc;
        stops = λ e. omega arith;
        ids = omega (arith, ap Boss.count same);
        valid = valid;
      })
    ]
