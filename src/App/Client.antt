-- ===== src/App/Client.antt =====
-- examples/client/client.cpp: the callbacks of logic_loop.
use libiocp.Base.{
  ℕ, ◌+◌, Bool, true, false, List, [], ◌∷◌, ◌++◌, Option, none, some, length, take, ◌==◌, ltb,
  if◌then◌else◌, ℤ, pos,
}
use libiocp.Loop.{
  Loop, Callback, on_connected, on_disconnected, on_send_finished, on_recv_finished, on_recv_failed,
  on_noop, on_recv_error, on_send_error, on_protocal_error, on_unhandled,
}
use libiocp.Session.State.{World}
use libiocp.Session.Io.{IoResult}
use libiocp.Session.Api.{send, recv, quit, set_session_data}
use libiocp.Boss.{update}
use libiocp.App.{Shared, call_session, delete_session, quit_if_alone}

-- session_data_t; `pf` is a handle of a file, and `buf` is lent to `recv` like the `reply` of the
-- server.
pub record ClientData : Type 0 where
  pub at : ℕ
  pub count : ℕ
  pub id : ℤ
  pub reply : List ℕ
  pub pf : Option ℕ
  pub buf : List ℕ
  pub recv_count : ℕ

-- `written` holds what has been written to each handle, and `fclosed` the handles in the order in
-- which they were closed.
pub record Files : Type 0 where
  pub written : ℕ → List ℕ
  pub fclosed : List ℕ

pub record ClientApp : Type 0 where
  pub shared : Shared
  pub objects : ℕ → ClientData
  pub files : Files

abbrev pub update_object : (ℕ → ClientData) → ℕ → ClientData → ℕ → ClientData
update_object f i d j = if i == j then d else f j

abbrev pub copy_count : ℕ
copy_count = 2

abbrev pub fclose : Option ℕ → Files → Files
fclose none f = f
fclose (some h) f = record f { fclosed = f.fclosed ++ h ∷ [] }

abbrev pub fwrite : Option ℕ → List ℕ → Files → Files
fwrite none bytes f = f
fwrite (some h) bytes f = record f {
  written = λ i. if h == i then f.written i ++ bytes else f.written i;
}

-- What becomes of the file and the copies as a package of `pack_size` bytes is taken: the object, the
-- files, and whether the program goes on.
module _ (fopen : ℤ → ℕ → Option ℕ) where
  unfoldable pub take_package : ℕ → ClientData → Files → ClientData × Files × Bool
  take_package pack_size d f =
      if pack_size == 1
      then (let c = record d { count = d.count + 1 } in
          if ltb c.count copy_count
          then (record c { pf = fopen c.id c.count; at = 0 }, fclose d.pf f, true)
          else (c, fclose d.pf f, false))
      else (d, fwrite d.pf (take pack_size d.buf) f, true)

-- `fopen` gives the handle of the file with a session's number and the number of the copy, and
-- `memory` are the RECV_BUF_LEN zeroes of a new session_data_t.
module _ (fopen : ℤ → ℕ → Option ℕ) (memory : List ℕ) where
  abbrev pub connected : Loop → ClientApp → Loop × ClientApp
  connected l a =
      let d : ClientData = record {
        at = 0;
        count = 0;
        id = l.connect_count;
        reply = 0 ∷ 0 ∷ [];
        pf = fopen l.connect_count 0;
        buf = memory;
        recv_count = 0;
      } in
      let s = record (a.shared) {
        store =
            update a.shared.store l.session
              (set_session_data (a.shared.store l.session) (l.session + 1));
      } in
      let (m, t) = call_session (λ w io. recv w memory (length memory) io) l s in
      (m, record a { shared = t; objects = update_object a.objects l.session d })

  abbrev pub disconnected : Loop → ClientApp → Loop × ClientApp
  disconnected l a = (
    quit_if_alone l,
    record a {
      shared = delete_session l a.shared;
      files = fclose (a.objects l.session).pf a.files;
    },
  )

  abbrev pub sent : Loop → ClientApp → Loop × ClientApp
  sent l a =
      let d = record (a.objects l.session) { recv_count = 0 } in
      let (m, t) = call_session (λ w io. recv w d.buf (length memory) io) l a.shared in
      (m, record a { shared = t; objects = update_object a.objects l.session d })

  -- `quit_cur_session`; `quit` has no result.
  abbrev pub quit_session : World → IoResult → World × ℤ
  quit_session w io = (quit w, pos 0)

  abbrev pub received : Loop → ClientApp → Loop × ClientApp
  received l a =
      let d = record (a.objects l.session) { buf = (a.shared.store l.session).io_recv_buf } in
      let (e, files, goes_on) = take_package fopen l.pack.pack_size d a.files in
      let answer = record e { reply = 111 ∷ 107 ∷ [] } in
      let b = record a { files = files } in
      if goes_on
      then (let (m, t) = call_session (λ w io. send w (111 ∷ 107 ∷ []) io) l a.shared in
          (m, record b { shared = t; objects = update_object a.objects l.session answer }))
      else (let (m, t) = call_session quit_session l a.shared in
          (m, record b { shared = t; objects = update_object a.objects l.session e }))

  -- The callbacks that only print, or do nothing, leave all as it is.
  unfoldable pub client_imp : Callback → Loop → ClientApp → Loop × ClientApp
  unfolding take_package
  client_imp on_connected l a = connected l a
  client_imp on_disconnected l a = disconnected l a
  client_imp on_send_finished l a = sent l a
  client_imp on_recv_finished l a = received l a
  client_imp on_recv_failed l a = (l, a)
  client_imp on_noop l a = (l, a)
  client_imp on_recv_error l a = (l, a)
  client_imp on_send_error l a = (l, a)
  client_imp on_protocal_error l a = (l, a)
  client_imp on_unhandled l a = (l, a)
