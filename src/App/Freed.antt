-- ===== src/App/Freed.antt =====
-- The end of a session in the client: a file that is closed twice.
use mathlib.Core.List.{append_assoc}
use libiocp.Base.{ℕ, ◌+◌, ◌≡◌, ◌≤◌, List, [], ◌∷◌, ◌++◌, Option, some, arith, ℤ}
use libiocp.Loop.{Loop, on_recv_finished, on_disconnected}
use libiocp.App.Client.{ClientApp, client_imp, take_package, copy_count}

module _ (fopen : ℤ → ℕ → Option ℕ) (memory : List ℕ) where
  -- Where the end of the last copy arrives the client closes its file, and closes it again when the
  -- session has ended.
  pub closed_again :
      (l : Loop) (a : ClientApp) (h : ℕ)
      → l.pack.pack_size ≡ 1
      → copy_count ≤ (a.objects l.session).count + 1
      → (a.objects l.session).pf ≡ some h
      → let (m, b) = client_imp fopen memory on_recv_finished l a in
        (client_imp fopen memory on_disconnected m b).1.files.fclosed
        ≡ a.files.fclosed ++ h ∷ h ∷ []
  unfolding client_imp take_package
  closed_again l a h one last file = ground (arith, append_assoc a.files.fclosed (h ∷ []) (h ∷ []))
