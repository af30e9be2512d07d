-- ===== src/Utility.antt =====
-- inc/sglib/sglib_utility.h: SGLIB_ALIGN_BYTES, on addresses of `width` bits (`intptr_t` of
-- inc/sglib/sglib_type.h is unsigned).
pub mod Bits
pub mod Align
mod Tests
use libiocp.Base.{ℕ, ◌+◌, ◌-◌, ◌%◌, ◌^◌}
use Prim.Native.Nat.{bit_and}

-- `ptr + n - 1` and `~(n - 1)` wrap; the second is what stays of the int behind its conversion.
unfoldable pub align_bytes : (width ptr n : ℕ) → ℕ
align_bytes width ptr n =
    bit_and ((ptr + n + 2 ^ width - 1) % 2 ^ width)
      (2 ^ width - 1 - (n + 2 ^ width - 1) % 2 ^ width)
