-- ===== src/Session/Commuting/Orders.antt =====
-- The completions of both directions in any order.
use libiocp.Base.{
  ℕ, ◌≡◌, refl, sym, ap, ◌∙◌, Bool, true, false, List, [], ◌∷◌, ◌++◌, Bool-cases, inl, inr, arith,
}
use libiocp.Iobuf.{Iobuf, trail_move}
use libiocp.Frame.{Header}
use libiocp.Session.State.{Session, World}
use libiocp.Session.Io.{Extract, malformed, incomplete, complete, recv_extract_package}
use libiocp.Session.Commuting.{
  Completion, sends, receives, is_send, step, step_calls, IsLive, statuses, landed, sent,
}
use libiocp.Session.Commuting.Logs.{only, only-append, log, only-log, steps}
use libiocp.Session.Commuting.Halves
use libiocp.Session.Commuting.Runs.{run, AllHaveBytes, run-Ran}

-- A send and a receive in either order.
landed-sent :
    (s : Session) (b : Iobuf) (n : ℕ) (p q : Bool) (x : Extract × Header)
    → landed (sent s n p) b q x ≡ sent (landed s b q x) n p
landed-sent s b n p q (malformed, h) = refl
landed-sent s b n p q (incomplete, h) = ground arith
landed-sent s b n p q (complete, h) = ground arith

sent_first :
    (s : Session) (c d : Completion)
    → is_send c ≡ true
    → is_send d ≡ false
    → step (step s c) d ≡ step (step s d) c
unfolding step
sent_first s (sends n e p) (receives m f q) a b =
    let r = trail_move s.recv_buf m in landed-sent s r n p q (recv_extract_package r)
sent_first s (receives n e p) d a b = absurd (cc)
sent_first s (sends n e p) (sends m f q) a b = absurd (cc)

abbrev all_steps : Session → List Completion → Session
all_steps s cs = steps step step_calls s cs

-- A receive may stand behind all the sends.
behind_sends :
    (s : Session) (d : Completion) (cs : List Completion)
    → is_send d ≡ false
    → all_steps (step s d) (only is_send cs) ≡ step (all_steps s (only is_send cs)) d
unfolding steps only
behind_sends s d [] no_send = refl
behind_sends s d (c ∷ cs) no_send = elim (Bool-cases (is_send c)) [
  | inl it ↦ rw it (
      ap (λ t. all_steps t (only is_send cs)) (sym (sent_first s c d it no_send))
      ∙ behind_sends (step s c) d cs no_send)
  | inr it ↦ rw it (behind_sends s d cs no_send)
]

sends_then_receives :
    (s : Session) (cs : List Completion)
    → all_steps s cs ≡ all_steps (all_steps s (only is_send cs)) (only Halves.is_receive cs)
unfolding steps only
sends_then_receives s [] = refl
sends_then_receives s (c ∷ cs) = elim (Bool-cases (is_send c)) [
  | inl it ↦ rw it (sends_then_receives (step s c) cs)
  | inr it ↦ rw it (
      sends_then_receives (step s c) cs
      ∙ ap (λ t. all_steps t (only Halves.is_receive cs)) (behind_sends s c cs it))
]

-- The calls and the notices of one direction, in a log that one set of events with the same parts
-- has written.
module _ (s : Session) (cs ds : List Completion) (sends_as : only is_send cs ≡ only is_send ds)
    (receives_as : only Halves.is_receive cs ≡ only Halves.is_receive ds) where
  sent_part :
      {A : Type 0} (f : Session → Completion → List A) (p : A → Bool)
      → ((t : Session) (c : Completion) → is_send c ≡ true → only p (f t c) ≡ f t c)
      → ((t : Session) (c : Completion) → is_send c ≡ false → only p (f t c) ≡ [])
      → ((t u : Session) (c : Completion) → is_send c ≡ true → Halves.SameSend t u → f t c ≡ f u c)
      → only p (log step f s cs) ≡ only p (log step f s ds)
  sent_part f p own other reads =
      let part = λ (es : List Completion).
        only-log step f is_send p Halves.SameSend (λ t. refl) Halves.receive_keeps Halves.send_moves
          own other reads s es in
      part cs ∙ ap (log step f s) sends_as ∙ sym (part ds)

  received_part :
      {A : Type 0} (f : Session → Completion → List A) (p : A → Bool)
      → ((t : Session) (c : Completion) → Halves.is_receive c ≡ true → only p (f t c) ≡ f t c)
      → ((t : Session) (c : Completion) → Halves.is_receive c ≡ false → only p (f t c) ≡ [])
      → ((t u : Session) (c : Completion)
          → Halves.is_receive c ≡ true
          → Halves.SameRecv t u
          → f t c ≡ f u c)
      → only p (log step f s cs) ≡ only p (log step f s ds)
  received_part f p own other reads =
      let part = λ (es : List Completion).
        only-log step f Halves.is_receive p Halves.SameRecv (λ t. (refl, refl)) Halves.send_keeps
          Halves.receive_moves own other reads s es in
      part cs ∙ ap (log step f s) receives_as ∙ sym (part ds)

  same_session : all_steps s cs ≡ all_steps s ds
  same_session =
      sends_then_receives s cs
      ∙ ap (λ es. all_steps (all_steps s es) (only Halves.is_receive cs)) sends_as
      ∙ ap (all_steps (all_steps s (only is_send ds))) receives_as
      ∙ sym (sends_then_receives s ds)

-- Two worlds that differ at most in how the calls and the notices of the two directions are merged.
pub record SameOutcome (v u : World) : Type 0 where
  pub session : v.session ≡ u.session
  pub sessions : v.sessions ≡ u.sessions
  pub stop : v.queue.stop ≡ u.queue.stop
  pub send_calls : only Halves.of_send v.calls ≡ only Halves.of_send u.calls
  pub receive_calls : only Halves.of_receive v.calls ≡ only Halves.of_receive u.calls
  pub send_notices : only Halves.tells_send (statuses v) ≡ only Halves.tells_send (statuses u)
  pub receive_notices :
      only Halves.tells_receive (statuses v) ≡ only Halves.tells_receive (statuses u)

-- What two logs behind the same start have in common.
same_part :
    {A : Type 0} (p : A → Bool) (start x y : List A) {v u : List A}
    → v ≡ start ++ x
    → u ≡ start ++ y
    → only p x ≡ only p y
    → only p v ≡ only p u
same_part p start x y e f h =
    ap (only p) e
    ∙ only-append p start x
    ∙ ap (λ l. only p start ++ l) h
    ∙ sym (only-append p start y)
    ∙ sym (ap (only p) f)

-- The worker threads may hand the completions of the sends and those of the receives to a session in
-- any order between the two: while bytes go through in both directions, each call that follows returns
-- 0 or is pending, and neither operation has been turned into a quit, the session ends the same, and so
-- do the calls and the statuses of the notices of each direction, in their order.
pub any_order :
    (w : World) (cs ds : List Completion)
    → IsLive w.session
    → AllHaveBytes cs
    → AllHaveBytes ds
    → only is_send cs ≡ only is_send ds
    → only Halves.is_receive cs ≡ only Halves.is_receive ds
    → SameOutcome (run w cs) (run w ds)
any_order w cs ds live some_c some_d a b =
    let s = w.session in
    let hear = Halves.notices_of w.session.socket w.queue.stop in
    let socket = w.session.socket in
    let stop = w.queue.stop in
    let v = run-Ran w s socket stop cs refl refl refl live some_c in
    let u = run-Ran w s socket stop ds refl refl refl live some_d in
    record {
      session = v.session ∙ same_session s cs ds a b ∙ sym u.session;
      sessions = v.sessions ∙ sym u.sessions;
      stop = v.stopped ∙ sym u.stopped;
      send_calls = same_part Halves.of_send w.calls _ _ v.calls u.calls (
          sent_part s cs ds a b step_calls Halves.of_send Halves.send_calls_own
            Halves.send_calls_other Halves.send_calls_read);
      receive_calls = same_part Halves.of_receive w.calls _ _ v.calls u.calls (
          received_part s cs ds a b step_calls Halves.of_receive Halves.receive_calls_own
            Halves.receive_calls_other Halves.receive_calls_read);
      send_notices = same_part Halves.tells_send (statuses w) _ _ v.notices u.notices (
          sent_part s cs ds a b hear Halves.tells_send (Halves.send_notices_own socket stop)
            (Halves.send_notices_other socket stop) (Halves.send_notices_read socket stop));
      receive_notices = same_part Halves.tells_receive (statuses w) _ _ v.notices u.notices (
          received_part s cs ds a b hear Halves.tells_receive
            (Halves.receive_notices_own socket stop) (Halves.receive_notices_other socket stop)
            (Halves.receive_notices_read socket stop));
    }
