-- ===== src/Utility/Tests.antt =====
-- Addresses of sixteen bits.
use libiocp.Base.{ℕ, ◌+◌, ◌*◌, ◌^◌, ◌≤◌, ◌<◌, ◌≡◌, ◌⊎◌, refl, arith}
use libiocp.Utility.{align_bytes}
use libiocp.Utility.Align.{align_bytes-Next}

align_runs :
    (align_bytes 16 4097 8 ≡ 4104)
    × (align_bytes 16 4104 8 ≡ 4104)
    × (align_bytes 16 65528 8 ≡ 65528)
    × (align_bytes 16 65529 8 ≡ 0)
unfolding align_bytes
align_runs = (refl, refl, refl, refl)

align_bytes-Next_example :
    ((4097 + 2 ^ 3 ≤ 2 ^ (13 + 3))
      × ((q : ℕ) × (align_bytes (13 + 3) 4097 (2 ^ 3) ≡ q * 2 ^ 3))
      × (4097 ≤ align_bytes (13 + 3) 4097 (2 ^ 3))
      × (align_bytes (13 + 3) 4097 (2 ^ 3) < 4097 + 2 ^ 3))
    ⊎ (2 ^ (13 + 3) < 4097 + 2 ^ 3) × (align_bytes (13 + 3) 4097 (2 ^ 3) ≡ 0)
align_bytes-Next_example = align_bytes-Next 13 3 4097 (omega arith)
