-- ===== src/Frame.antt =====
-- inc/sglib/iocp/iocp_session_ioT.h: struct header_t, the head of each package, in memory.
-- MSVC lays it out in 8 bytes, little endian: the magic in bytes 0 and 1, padding in 2 and 3, the
-- size in 4 to 7. Signed numbers stand as their bit patterns.
pub mod Layout
use libiocp.Base.{
  ℕ, ◌+◌, ◌*◌, ◌/◌, ◌%◌, ◌^◌, Bool, List, [], ◌∷◌, ◌++◌, ◌==◌, leb, ◌||◌, get_or, write,
}

abbrev pub magic : ℕ
magic = 0xeffe

abbrev pub header_size : ℕ
header_size = 8

pub record Header : Type 0 where
  pub magic : ℕ
  pub size : ℕ

unfoldable pub le16 : ℕ → List ℕ
le16 n = n % 256 ∷ (n / 256 % 256) ∷ []

unfoldable pub le32 : ℕ → List ℕ
le32 n = n % 256 ∷ (n / 256 % 256) ∷ (n / 256 / 256 % 256) ∷ (n / 256 / 256 / 256 % 256) ∷ []

-- `head->magic = MAGIC; head->size = size;` with `head` at offset `off`. The padding stays.
unfoldable pub put_header : ℕ → ℕ → List ℕ → List ℕ
put_header off size mem = write (off + 4) (le32 size) (write off (le16 magic) mem)

-- A `header_t` read from the 8 bytes that `safe_copy` wrote over it.
unfoldable pub get_header : List ℕ → Header
get_header xs = record {
  magic = get_or xs 0 0 + 256 * get_or xs 1 0;
  size = get_or xs 4 0 + 256 * get_or xs 5 0 + 65536 * get_or xs 6 0 + 16777216 * get_or xs 7 0;
}

-- `h->size <= 0`, for the 32 bits of an int.
abbrev pub not_positive : ℕ → Bool
not_positive n = n == 0 || leb (2 ^ 31) n
