-- ===== src/Blocking/Tests.antt =====
-- A message of two bytes, and one that comes in two parts.
use libiocp.Base.{ℕ, ◌+◌, ◌≡◌, refl, List, [], ◌∷◌, Option, some, write}
use libiocp.Blocking.{received, recv, header_size, get_int}
use libiocp.Blocking.Loops.{arriving}

-- `_raw_buf` before the header is put.
abbrev raw : List ℕ
raw = 0 ∷ 0 ∷ 0 ∷ 0 ∷ 0 ∷ 0 ∷ 0 ∷ 0 ∷ 5 ∷ 6 ∷ []

-- The last byte is lost.
abbrev frame : List ℕ
frame = 16 ∷ 16 ∷ 16 ∷ 16 ∷ 9 ∷ 0 ∷ 0 ∷ 0 ∷ 7 ∷ []

abbrev tail : List ℕ
tail = 1 ∷ 2 ∷ 3 ∷ 4 ∷ 5 ∷ 6 ∷ 7 ∷ 8 ∷ []

abbrev chunks : List (Option (List ℕ))
chunks = some frame ∷ some tail ∷ []

recv_runs :
    recv raw chunks ≡ received 9 (16 ∷ 16 ∷ 16 ∷ 16 ∷ 9 ∷ 0 ∷ 0 ∷ 0 ∷ 7 ∷ 6 ∷ []) (some tail ∷ [])
unfolding recv get_int write
recv_runs = refl

arrives : arriving chunks ≡ header_size + 9
unfolding arriving
arrives = refl
