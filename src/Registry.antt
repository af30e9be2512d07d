-- ===== src/Registry.antt =====
-- inc/sglib/iocp/iocp_session.h: the vector `_sessions` of iocp_session_boss.
-- A session pointer is the id of the session.
use libiocp.Base.{ℕ, suc, ◌-◌, ◌≡◌, Bool, true, false, List, [], ◌∷◌, ◌==◌, if◌then◌else◌, arith}

-- `std::find` and `erase`: the first entry goes; `false` where the ASSERT(0) stands.
unfoldable pub session_remove : List ℕ → ℕ → List ℕ × Bool
session_remove [] s = ([], false)
session_remove (x ∷ xs) s =
    if x == s then (xs, true) else (x ∷ (session_remove xs s).0, (session_remove xs s).1)

-- How often a session stands in the vector.
unfoldable pub count : ℕ → List ℕ → ℕ
count s [] = 0
count s (x ∷ xs) = if x == s then suc (count s xs) else count s xs

-- One entry of the session goes if there is one, which the flag tells, and no other entry does.
pub count-session_remove :
    (xs : List ℕ) (s r : ℕ)
    → count r (session_remove xs s).0 ≡ (if r == s then count r xs - 1 else count r xs)
unfolding count session_remove
count-session_remove [] s r = ground arith
count-session_remove (x ∷ xs) s r = ground (arith, count-session_remove xs s r)

pub session_remove_found :
    (xs : List ℕ) (s : ℕ) → (session_remove xs s).1 ≡ (if count s xs == 0 then false else true)
unfolding count session_remove
session_remove_found [] s = ground arith
session_remove_found (x ∷ xs) s = ground (arith, session_remove_found xs s)
