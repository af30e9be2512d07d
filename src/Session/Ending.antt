-- ===== src/Session/Ending.antt =====
-- The end of a session as the application sees it on the message queue.
use mathlib.Core.Path.{subst}
use libiocp.Base.{ℕ, ◌≡◌, refl, ap, ◌∙◌, ◌≢◌, ◌⊎◌, inl, inr, List, [], ◌∷◌, ◌++◌, arith}
use libiocp.Package.{Package, NetStatus}
use libiocp.Queue.{Queue, put}
use libiocp.Registry.{session_remove}
use libiocp.Session.State.{
  io_send, io_recv, World, close_handle, send_error, recv_error, disconected,
}
use libiocp.Session.Io.{IoResult, process_iocp, operation, Olp, send_olp, recv_olp}
use libiocp.Session.Api.{quit}
use libiocp.Session.Closing.{ending, process-OnlyEnding}

-- A completion with no bytes on an open session: the error and the end are put in this order, the
-- socket is closed once, and the boss forgets the session.
pub peer_closed :
    (w : World) (olp : Olp) (err : ℕ) (io : IoResult) (status : NetStatus)
    → w.session.socket ≢ 0
    → ((operation w.session olp ≡ io_recv) × (status ≡ NetStatus.recv_error))
      ⊎ ((operation w.session olp ≡ io_send) × (status ≡ NetStatus.send_error))
    → let v = process_iocp w 0 olp err io in
      (v.queue
        ≡ (put
            (put w.queue (record (ending w.session) { status = status; err = err })).0
            (ending w.session)).0)
      × (v.calls ≡ w.calls ++ close_handle w.session.socket ∷ [])
      × (v.session.socket ≡ 0)
      × (v.sessions ≡ (session_remove w.sessions w.session.id).0)
unfolding process_iocp send_error recv_error disconected
peer_closed w olp err io status h o = ground arith

-- A completion as the worker thread sees it.
pub record Completion : Type 0 where
  pub trans : ℕ
  pub olp : Olp
  pub err : ℕ
  pub io : IoResult

pub complete_all : World → List Completion → World
complete_all w [] = w
complete_all w (c ∷ cs) = complete_all (process_iocp w c.trans c.olp c.err c.io) cs

unfoldable pub put_all : Queue Package → List Package → Queue Package
put_all q [] = q
put_all q (p ∷ ps) = put_all (put q p).0 ps

abbrev pub AllEnding : ℕ → List Package → Type 0
AllEnding id [] = Unit
AllEnding id (p ∷ ps) = (p.status ≡ NetStatus.disconnected) × (p.session ≡ id) × AllEnding id ps

-- Once the socket of a session is closed, its completions put nothing on the queue but notices of
-- its end, in whatever order and number they come.
pub only_endings :
    (w : World) (cs : List Completion)
    → w.session.socket ≡ 0
    → (ps : List Package) × AllEnding w.session.id ps
      × ((complete_all w cs).queue ≡ put_all w.queue ps)
unfolding complete_all put_all
only_endings w [] c = ([], tt, refl)
only_endings w (x ∷ cs) c =
    let (closed, id, news) = process-OnlyEnding w x.trans x.olp x.err x.io c in
    let (ps, all, e) = only_endings (process_iocp w x.trans x.olp x.err x.io) cs closed in
    let all' = subst (λ k. AllEnding k ps) id all in
    elim news [
      | inl same ↦ (ps, all', e ∙ ap (λ q. put_all q ps) same)
      | inr (p, ended, whose, added) ↦
          (p ∷ ps, (ended, whose, all'), e ∙ ap (λ q. put_all q ps) added)
    ]

disconected_facts :
    (w : World)
    → ((disconected w).session.socket ≡ 0)
      × ((disconected w).session.id ≡ w.session.id)
      × ((disconected w).queue ≡ (put w.queue (ending w.session)).0)
unfolding disconected
disconected_facts w = (ground arith, ground arith, ground arith)

-- Where the completions of a session are handled one by one, whichever they are, the end of the session
-- is put behind all that was put before, and nothing but notices of the same end follows it.
pub ended_last :
    (w : World) (cs : List Completion)
    → (ps : List Package) × AllEnding w.session.id ps
      × ((complete_all (disconected w) cs).queue ≡ put_all w.queue (ending w.session ∷ ps))
unfolding put_all
ended_last w cs =
    let (closed, id, queue) = disconected_facts w in
    let (ps, all, e) = only_endings (disconected w) cs closed in
    (ps, subst (λ k. AllEnding k ps) id all, e ∙ ap (λ q. put_all q ps) queue)

-- If both transfers of a session are outstanding when the peer closes, the end of the session is
-- put twice, each time behind an error or not: the second is for a session that the first already
-- allowed the application to delete.
pub ended_twice :
    (w : World) (err err' : ℕ) (io io' : IoResult)
    → w.session.socket ≢ 0
    → w.session.recv_op ≡ io_recv
    → w.session.send_op ≡ io_send
    → (process_iocp (process_iocp w 0 recv_olp err io) 0 send_olp err' io').queue
      ≡ put_all w.queue (
          record (ending w.session) { status = NetStatus.recv_error; err = err }
          ∷ ending w.session
          ∷ ending w.session
          ∷ [])
unfolding process_iocp send_error recv_error disconected put_all
ended_twice w err err' io io' h r s = ground arith

-- So it is if the application calls `quit` while a receive is outstanding: `quit` marks the
-- receive's own OVERLAPPED_EX, and both completions of it end the session.
pub quit_ends_twice :
    (w : World) (n err n' err' : ℕ) (io io' : IoResult)
    → (process_iocp (process_iocp (quit w) n recv_olp err io) n' recv_olp err' io').queue
      ≡ put_all w.queue (ending w.session ∷ ending w.session ∷ [])
unfolding process_iocp quit disconected put_all
quit_ends_twice w n err n' err' io io' = ground arith
