-- ===== src/Session/Commuting/Runs.antt =====
-- A run of completions, and its logs.
use libiocp.Base.{ℕ, ◌≡◌, refl, sym, ap, ◌∙◌, Bool, List, [], ◌∷◌, ◌++◌}
use mathlib.Core.List.{append-nil, append_assoc}
use mathlib.Core.Path.{subst}
use libiocp.Session.State.{Session, World}
use libiocp.Session.Commuting.{
  Completion, HasBytes, handle, step, step_calls, IsLive, Did, handle-Did, statuses,
}
use libiocp.Session.Commuting.Logs.{log, steps}
use libiocp.Session.Commuting.Halves

unfoldable pub run : World → List Completion → World
run w [] = w
run w (c ∷ cs) = run (handle w c) cs

abbrev pub AllHaveBytes : List Completion → Type 0
AllHaveBytes [] = Unit {0}
AllHaveBytes (c ∷ cs) = HasBytes c × AllHaveBytes cs

step-IsLive : (s : Session) (c : Completion) → IsLive s → IsLive (step s c)
step-IsLive s c (sending, receiving) =
    let (_, send_op, recv_op) = Halves.step_keeps s c in (send_op ∙ sending, recv_op ∙ receiving)

-- What a run makes of a world whose session is `s`.
pub record Ran (w v : World) (s : Session) (socket : ℕ) (stop : Bool) (cs : List Completion)
    : Type 0 where
  pub session : v.session ≡ steps step step_calls s cs
  pub calls : v.calls ≡ w.calls ++ log step step_calls s cs
  pub notices : statuses v ≡ statuses w ++ log step (Halves.notices_of socket stop) s cs
  pub sessions : v.sessions ≡ w.sessions
  pub stopped : v.queue.stop ≡ w.queue.stop

handled :
    (w : World) (s : Session) (socket : ℕ) (stop : Bool) (c : Completion)
    → w.session ≡ s
    → s.socket ≡ socket
    → w.queue.stop ≡ stop
    → IsLive s
    → HasBytes c
    → Did w (handle w c) (step s c) (step_calls s c) (Halves.notices_of socket stop s c)
handled w s socket stop c e k h live bytes =
    rw (← k, ← h, ← e) (handle-Did w c bytes (subst IsLive (sym e) live))

pub run-Ran :
    (w : World) (s : Session) (socket : ℕ) (stop : Bool) (cs : List Completion)
    → w.session ≡ s
    → s.socket ≡ socket
    → w.queue.stop ≡ stop
    → IsLive s
    → AllHaveBytes cs
    → Ran w (run w cs) s socket stop cs
unfolding run log steps
run-Ran w s socket stop [] e k h live some = record {
  session = e;
  calls = sym (append-nil w.calls);
  notices = sym (append-nil (statuses w));
  sessions = refl;
  stopped = refl;
}
run-Ran w s socket stop (c ∷ cs) e k h live (bytes, some) =
    let d : Did w (handle w c) (step s c) (step_calls s c) (Halves.notices_of socket stop s c) =
      handled w s socket stop c e k h live bytes in
    let r =
      run-Ran (handle w c) (step s c) socket stop cs d.session ((Halves.step_keeps s c).0 ∙ k)
        (d.stop ∙ h) (step-IsLive s c live) some in
    record {
      session = r.session;
      calls =
          r.calls
          ∙ ap (λ l. l ++ log step step_calls (step s c) cs) d.calls
          ∙ append_assoc w.calls _ _;
      notices =
          r.notices
          ∙ ap (λ l. l ++ log step (Halves.notices_of socket stop) (step s c) cs) d.notices
          ∙ append_assoc (statuses w) _ _;
      sessions = r.sessions ∙ d.sessions;
      stopped = r.stopped ∙ d.stop;
    }
