-- ===== src/App/Server.antt =====
-- examples/server/server.cpp: the callbacks of logic_loop, and its main loop.
use libiocp.Base.{
  ℕ, ◌+◌, Bool, ◌&&◌, List, [], ◌∷◌, Option, none, some, length, take, drop, get_or, ◌==◌,
  if◌then◌else◌,
}
use libiocp.Loop.{
  Loop, Callback, on_connected, on_disconnected, on_send_finished, on_recv_finished, on_recv_failed,
  on_noop, on_recv_error, on_send_error, on_protocal_error, on_unhandled,
}
use libiocp.Session.Api.{send, recv, set_session_data}
use libiocp.Boss.{update}
use libiocp.App.{Shared, call_session, delete_session, quit_if_alone}

-- session_data_t. Its `reply` is lent to `recv`; until the program looks at it again, what arrives
-- there stands in the session.
pub record ServerData : Type 0 where
  pub at : ℕ
  pub count : ℕ
  pub id : ℕ
  pub reply : List ℕ

abbrev pub fresh : ServerData
fresh = record { at = 0; count = 0; id = 0; reply = 0 ∷ 0 ∷ [] }

-- `objects` holds the session_data_t of each session.
pub record ServerApp : Type 0 where
  pub shared : Shared
  pub objects : ℕ → ServerData

abbrev pub update_data : (ℕ → ServerData) → ℕ → ServerData → ℕ → ServerData
update_data f i d j = if i == j then d else f j

-- `file` holds the bytes of server.jpg, or is `none` if it cannot be opened; `piece_size` is BUF_LEN,
-- and `junk` the bytes that `_buf` and the unset `len` then stand for.
module _ (file : Option (List ℕ)) (piece_size : ℕ) (junk : List ℕ) where
  -- `read` once the file is open: the bytes in `_buf`, of which there are `len`.
  unfoldable pub read_at : List ℕ → ServerData → List ℕ × ServerData
  read_at bytes d =
      let piece = take piece_size (drop d.at bytes) in
      if length piece == 0
      then ([], record d { at = 0; count = d.count + 1 })
      else (piece, record d { at = d.at + length piece })

  unfoldable pub read : ServerData → List ℕ × ServerData
  unfolding read_at
  read d = elim file [ none ↦ (junk, d) | some bytes ↦ read_at bytes d ]

  -- The message that answers an "ok": a piece, or the one character '0' behind the last piece.
  unfoldable pub next_message : ServerData → List ℕ × ServerData
  unfolding read
  next_message d =
      let (piece, d') = read d in
      (if length piece == 0 then 48 ∷ [] else piece, record d' { id = d'.id + 1 })

  -- `_session->send (_buf, len)`.
  abbrev send_message : List ℕ → Loop → ServerApp → Loop × ServerApp
  send_message bytes l a =
      let (m, s) = call_session (λ w io. send w bytes io) l a.shared in (m, record a { shared = s })

  abbrev pub connected : Loop → ServerApp → Loop × ServerApp
  connected l a =
      let (piece, d) = read fresh in
      let s = record (a.shared) {
        store =
            update a.shared.store l.session
              (set_session_data (a.shared.store l.session) (l.session + 1));
      } in
      send_message piece l (record a { shared = s; objects = update_data a.objects l.session d })

  abbrev pub disconnected : Loop → ServerApp → Loop × ServerApp
  disconnected l a = (quit_if_alone l, record a { shared = delete_session l a.shared })

  -- `_session->recv (sdata->reply, 2)`.
  abbrev pub sent : Loop → ServerApp → Loop × ServerApp
  sent l a =
      let (m, s) = call_session (λ w io. recv w (a.objects l.session).reply 2 io) l a.shared in
      (m, record a { shared = s })

  abbrev pub is_ok : List ℕ → Bool
  is_ok reply = get_or reply 0 0 == 111 && get_or reply 1 0 == 107

  abbrev pub received : Loop → ServerApp → Loop × ServerApp
  received l a =
      let reply = (a.shared.store l.session).io_recv_buf in
      let d = record (a.objects l.session) { reply = reply } in
      let (bytes, next) = next_message d in
      if is_ok reply
      then send_message bytes l (record a { objects = update_data a.objects l.session next })
      else (l, record a { objects = update_data a.objects l.session d })

  -- The callbacks that only print leave all as it is.
  unfoldable pub server_imp : Callback → Loop → ServerApp → Loop × ServerApp
  unfolding read next_message
  server_imp on_connected l a = connected l a
  server_imp on_disconnected l a = disconnected l a
  server_imp on_send_finished l a = sent l a
  server_imp on_recv_finished l a = received l a
  server_imp on_recv_failed l a = (l, a)
  server_imp on_noop l a = (l, a)
  server_imp on_recv_error l a = (l, a)
  server_imp on_send_error l a = (l, a)
  server_imp on_protocal_error l a = (l, a)
  server_imp on_unhandled l a = (l, a)
