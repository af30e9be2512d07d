-- ===== src/Session/Extract.antt =====
-- `recv_extract_package` depends on the bytes held alone, and finds the packages that senders make.
use libiocp.Base.{
  ℕ, ◌+◌, ◌-◌, ◌^◌, ◌≤◌, ◌<◌, ◌≡◌, sym, ap, ◌∙◌, ◌≢◌, ◌⊎◌, ◌↔◌, List, ◌++◌, ◌==◌, ltb, leb, ◌||◌,
  not, if◌then◌else◌, arith, length, length-append, get_or-append, dec_le,
}
use libiocp.Iobuf.{Iobuf, length_used}
use libiocp.Iobuf.Valid.{IsValid, length_used-lt}
use libiocp.Iobuf.Contents.{contents, length-contents}
use libiocp.Iobuf.Copy.{safe_copy_lem}
use libiocp.Frame.{Header, magic, header_size, get_header, not_positive}
use libiocp.Frame.Layout.{packet, length-packet, get_header-packet, get_header-take}
use libiocp.Session.Io.{Extract, malformed, incomplete, complete, recv_extract_package}

-- What the first bytes of a stream mean to a receiver whose buffer has `limit` bytes.
unfoldable pub parse : ℕ → List ℕ → Extract × Header
parse limit xs =
    if leb (length xs) header_size
    then (incomplete, record { magic = 0; size = 0 })
    else let h = get_header xs in
      if not (h.magic == magic)
      then (malformed, h)
      else if not_positive h.size || leb limit h.size
      then (malformed, h)
      else if ltb (length xs - header_size) h.size
      then (incomplete, h)
      else (complete, h)

-- However the ring is turned, the verdict is that on the bytes that it holds.
pub recv_extract_package_lem :
    (b : Iobuf) → IsValid b → recv_extract_package b ≡ parse b.size (contents b)
unfolding recv_extract_package parse
recv_extract_package_lem b v = elim (dec_le (length_used b) header_size) [
  | yes short ↦ ground (arith, length-contents b)
  | no long ↦
      rw (
        safe_copy_lem b header_size v (omega arith),
        get_header-take (contents b),
        length-contents b,
      )
]

-- A package that is there as a whole is found, whatever follows it.
pub parse-packet :
    (limit p q : ℕ) (bytes rest : List ℕ)
    → 0 < length bytes
    → length bytes < 2 ^ 31
    → length bytes < limit
    → parse limit (packet p q bytes ++ rest)
      ≡ (complete, record { magic = magic; size = length bytes })
unfolding parse
parse-packet limit p q bytes rest pos small fits = ground (
  arith,
  get_header-packet p q bytes rest small,
  length-append (packet p q bytes) rest,
  length-packet p q bytes,
)

get_header-append :
    (xs more : List ℕ) → header_size ≤ length xs → get_header (xs ++ more) ≡ get_header xs
unfolding get_header
get_header-append xs more h = ground (
  arith,
  get_or-append xs more 0 0,
  get_or-append xs more 1 0,
  get_or-append xs more 4 0,
  get_or-append xs more 5 0,
  get_or-append xs more 6 0,
  get_or-append xs more 7 0,
)

-- Of a package that has only begun to arrive, the receiver waits for more.
pub parse_prefix :
    (limit p q : ℕ) (bytes rest xs more : List ℕ)
    → 0 < length bytes
    → length bytes < 2 ^ 31
    → length bytes < limit
    → xs ++ more ≡ packet p q bytes ++ rest
    → length xs < header_size + length bytes
    → (parse limit xs).0 ≡ incomplete
unfolding parse
parse_prefix limit p q bytes rest xs more pos small fits e short =
    elim (dec_le (length xs) header_size) [
      | yes few ↦ ground arith
      | no many ↦ ground (arith, header many)
    ]
  where
    header :
        ¬ (length xs ≤ header_size) → get_header xs ≡ record { magic = magic; size = length bytes }
    header many =
        sym (get_header-append xs more (omega arith))
        ∙ ap get_header e
        ∙ get_header-packet p q bytes rest small

-- The verdict is "malformed" exactly for a header with another magic, or with a size that is not
-- positive or not below the size of the buffer.
pub parse_malformed :
    (limit : ℕ) (xs : List ℕ)
    → header_size < length xs
    → ((parse limit xs).0 ≡ malformed) ↔ (
        ((get_header xs).magic ≢ magic)
        ⊎ (((get_header xs).size ≡ 0)
            ⊎ ((2 ^ 31 ≤ (get_header xs).size) ⊎ (limit ≤ (get_header xs).size))))
unfolding parse
parse_malformed limit xs h = (λ e. ground arith, λ o. ground arith)

-- A header that announces from `size() - 8` up to `size() - 1` bytes is accepted, but however many
-- of them arrive the verdict stays "incomplete": the buffer cannot hold them beside the header.
pub oversized-incomplete :
    (b : Iobuf)
    → IsValid b
    → (get_header (contents b)).magic ≡ magic
    → b.size ≤ (get_header (contents b)).size + header_size
    → (get_header (contents b)).size < b.size
    → header_size < b.size
    → (get_header (contents b)).size < 2 ^ 31
    → (recv_extract_package b).0 ≡ incomplete
unfolding parse
oversized-incomplete b v m large below room small =
    rw (recv_extract_package_lem b v) (ground (arith, length-contents b, length_used-lt v))
