-- ===== src/Blocking.antt =====
-- inc/sglib/iocp/sglib_socket.h: class libsocket, a socket whose send and recv block.
pub mod Loops
mod Tests
use libiocp.Base.{
  ℕ, ◌+◌, ◌-◌, ◌*◌, ◌%◌, ◌/◌, Bool, List, [], ◌∷◌, ◌++◌, Option, none, some, ◌==◌, if◌then◌else◌,
  get_or, write, slice, length, drop, replicate, false,
}
use libiocp.Frame.{le32}

abbrev pub magic : ℕ
magic = 0x10101010

abbrev pub header_size : ℕ
header_size = 8

-- An int in memory, as its bit pattern.
unfoldable pub get_int : ℕ → List ℕ → ℕ
get_int off raw =
    get_or raw off 0
    + 256 * get_or raw (off + 1) 0
    + 65536 * get_or raw (off + 2) 0
    + 16777216 * get_or raw (off + 3) 0

-- `_head->magic = MAGIC; _head->length = length`, in `_raw_buf`.
unfoldable pub put_head : ℕ → List ℕ → List ℕ
put_head len raw = write 4 (le32 len) (write 0 (le32 magic) raw)

-- libsocket: `socket` is 0 for none, and `raw` is `_raw_buf`.
pub record Libsocket : Type 0 where
  pub socket : ℕ
  pub raw : List ℕ
  pub user_len : ℕ

unfoldable pub startup : (code : ℕ) → Bool
startup code = code == 0

-- The constructor, on `header_size + max_len` bytes that are allocated.
unfoldable pub socket_create : (max_len : ℕ) → List ℕ → Libsocket
socket_create max_len memory = record {
  socket = 0;
  raw = write header_size (replicate max_len 0) (write 0 (le32 magic) memory);
  user_len = 0;
}

-- `disconnect`, which the destructor calls, with the sockets that it closes.
unfoldable pub disconnect : Libsocket → Libsocket × List ℕ
disconnect s = if s.socket == 0 then (s, []) else (record s { socket = 0 }, s.socket ∷ [])

unfoldable pub get_buf : Libsocket → List ℕ
get_buf s = drop header_size s.raw

-- `check_recv`: what `select` returns, `none` for SOCKET_ERROR, and whether the socket is then set.
unfoldable pub check_recv : Option ℕ → (is_set : Bool) → Bool
check_recv none is_set = false
check_recv (some ready) is_set = if ready == 0 then false else is_set

-- How the loop of `send` ends, with the bytes that the system has taken: it returns true or false,
-- or is still in `::send`.
pub data SendEnd : Type 0 where
  sent refused unsent : List ℕ → SendEnd

-- The loop, over what `::send` returns, `none` for SOCKET_ERROR. `sending` is not needed below 0,
-- where the loop ends as at 0.
unfoldable pub send_loop :
    (raw : List ℕ) → List (Option ℕ) → (sended sending at : ℕ) → List ℕ → SendEnd
send_loop raw [] sended sending at gone = unsent gone
send_loop raw (none ∷ rets) sended sending at gone = refused gone
send_loop raw (some ret ∷ rets) sended sending at gone =
    let done = sended + ret in
    let left = sending - done in
    let all = gone ++ slice at ret raw in
    let rest = send_loop raw rets done left (at + done) all in if left == 0 then sent all else rest

unfoldable pub send : (raw : List ℕ) → (len : ℕ) → List (Option ℕ) → SendEnd
unfolding send_loop put_head
send raw len rets = send_loop (put_head len raw) rets 0 (len + header_size) 0 []

-- How the loop of `recv` ends: with `*size`, `_raw_buf` and what has not been read, with false, or
-- still in `::recv`.
pub data RecvEnd : Type 0 where
  received : (size : ℕ) → (raw : List ℕ) → List (Option (List ℕ)) → RecvEnd
  failed unread : RecvEnd

-- The loop, over what `::recv` writes, `none` for SOCKET_ERROR.
unfoldable pub recv_loop : List (Option (List ℕ)) → (recved : ℕ) → (raw : List ℕ) → RecvEnd
unfolding get_int
recv_loop [] recved raw = unread
recv_loop (none ∷ chunks) recved raw = failed
recv_loop (some bytes ∷ chunks) recved raw =
    let now = write recved bytes raw in
    let count = recved + length bytes in
    let rest = recv_loop chunks count now in
    if get_int 0 now == magic
    then (if count == get_int 4 now then received (get_int 4 now) now chunks else rest)
    else failed

unfoldable pub recv : (raw : List ℕ) → List (Option (List ℕ)) → RecvEnd
unfolding recv_loop
recv raw chunks = recv_loop chunks 0 raw
