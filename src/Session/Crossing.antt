-- ===== src/Session/Crossing.antt =====
-- A message from one session to another: `send` and its completions, the network, and the
-- completions of the receiver.
mod Tests
use mathlib.Core.List.{append-nil, append_assoc}
use libiocp.Base.{
  ℕ, zero, suc, ◌+◌, ◌-◌, ◌≤◌, ◌<◌, ◌^◌, ◌≡◌, refl, sym, ap, ap₂, ◌∙◌, ◌≢◌, ◌⊎◌, inl, inr, List, [],
  ◌∷◌, ◌++◌, arith, length, take, drop, length-append, length-drop, ℤ, one, minus_one, take_all,
  take-drop, append_cancel,
}
use libiocp.Iobuf.Valid.{IsValid}
use libiocp.Iobuf.Contents.{contents}
use libiocp.Frame.{header_size}
use libiocp.Frame.Layout.{packet, length-packet}
use libiocp.Queue.{put}
use libiocp.Session.State.{World, SysCall, wsa_send, wsa_recv, close_handle, post_status}
use libiocp.Session.Io.{IoResult}
use libiocp.Session.Api.{send}
use libiocp.Session.Arrival.{Started, Arrive, flatten, Delivered, Awaits}
use libiocp.Session.Reassembly.{reassembly}
use libiocp.Session.Sending.{Sends, send_lem}
use libiocp.Session.Drain.{sum, Transfers, resends, sent_notice, drain}

-- The bytes that go out if the calls of WSASend transfer that many bytes each.
abbrev pub carried : List SysCall → List ℕ → List ℕ
carried [] ns = []
carried (wsa_send block ∷ cs) [] = []
carried (wsa_send block ∷ cs) (n ∷ ns) = take n block ++ carried cs ns
carried (wsa_recv u n ∷ cs) ns = carried cs ns
carried (close_handle h ∷ cs) ns = carried cs ns
carried (post_status s ∷ cs) ns = carried cs ns

carried-resends :
    (bytes counts : List ℕ) (last : ℕ)
    → sum counts + last ≡ length bytes
    → carried (wsa_send bytes ∷ resends bytes counts) (counts ++ last ∷ []) ≡ bytes
carried-resends bytes [] last e = append-nil (take last bytes) ∙ take_all last bytes (omega arith)
carried-resends bytes (n ∷ counts) last e =
    ap (◌++◌ (take n bytes))
      (carried-resends (drop n bytes) counts last (omega (arith, length-drop n bytes)))
    ∙ take-drop n bytes

-- What leaves a session is the package, whatever the transfers.
record Left (s s' : World) (bytes : List ℕ) (io : IoResult) (sent : List ℕ) : Type 0 where
  pad1 : ℕ
  pad2 : ℕ
  whole : sent ≡ packet pad1 pad2 bytes
  notice : s'.queue ≡ (put s.queue (sent_notice (send s bytes io).0)).0

leaves :
    (s s' : World) (bytes counts : List ℕ) (last : ℕ) (io : IoResult) (new : List SysCall)
    → IsValid s.session.send_buf
    → s.session.socket ≢ 0
    → Started io
    → length bytes + header_size < 2 ^ 31
    → (send s bytes io).1 ≡ one
    → sum counts + last ≡ header_size + length bytes
    → 0 < last
    → Transfers (send s bytes io).0 (counts ++ last ∷ []) s'
    → s'.calls ≡ s.calls ++ new
    → Left s s' bytes io (carried new (counts ++ last ∷ []))
leaves s s' bytes counts last io new v open_socket st is_int taken total pos run e =
    elim (send_lem s bytes io v open_socket st is_int) [
      | inl (full, r, calls, queue) ↦ absurd (cc)
      | inr (p, q, r, calls, queue, sends) ↦
          let (made, notice) =
            drain (send s bytes io).0 s' (packet p q bytes) counts last sends
              (omega (arith, length-packet p q bytes)) pos run in
          let all : new ≡ wsa_send (packet p q bytes) ∷ resends (packet p q bytes) counts =
            append_cancel s.calls new _ (
              sym e
              ∙ made
              ∙ rw calls (append_assoc s.calls (wsa_send (packet p q bytes) ∷ []) _)) in
          record {
            pad1 = p;
            pad2 = q;
            whole = rw all (
                carried-resends (packet p q bytes) counts last
                  (omega (arith, length-packet p q bytes)));
            notice = notice ∙ ap (λ x. (put x (sent_notice (send s bytes io).0)).0) queue;
          }
    ]

-- A message that `send` accepts, and whose length with the header is an int, divided into transfers
-- in any way, and cut into other pieces on its way to a session that awaits a package: the receiver
-- is handed the same bytes, once, by the completion that brings the last of them, and the sender
-- has one notice that they are out.
pub crossing :
    (s s' v v' : World) (bytes counts : List ℕ) (last : ℕ) (io : IoResult) (new : List SysCall)
    (chunks : List (List ℕ)) (end : List ℕ)
    → IsValid s.session.send_buf
    → s.session.socket ≢ 0
    → Started io
    → length bytes + header_size < 2 ^ 31
    → (send s bytes io).1 ≡ one
    → sum counts + last ≡ header_size + length bytes
    → 0 < last
    → Transfers (send s bytes io).0 (counts ++ last ∷ []) s'
    → s'.calls ≡ s.calls ++ new
    → Awaits v 0 0 bytes []
    → contents v.session.recv_buf ≡ []
    → flatten chunks ++ end ≡ carried new (counts ++ last ∷ [])
    → 0 < length end
    → Arrive v (chunks ++ end ∷ []) v'
    → Delivered v v' bytes [] × (s'.queue ≡ (put s.queue (sent_notice (send s bytes io).0)).0)
crossing s s' v v' bytes counts last io new chunks end valid open_socket st is_int taken total pos
      run made a clean same some_end arrive =
    let l =
      leaves s s' bytes counts last io new valid open_socket st is_int taken total pos run made in
    let whole : flatten chunks ++ end ≡ packet l.pad1 l.pad2 bytes = same ∙ l.whole in
    (
      reassembly v v' chunks end l.pad1 l.pad2 bytes []
          (record {
            valid = a.valid;
            op = a.op;
            open_socket = a.open_socket;
            positive = a.positive;
            small = a.small;
            fits = a.fits;
            room = a.room;
          })
          (rw clean (whole ∙ sym (append-nil (packet l.pad1 l.pad2 bytes))))
          (rw clean (
            omega (
              arith,
              ap length whole,
              length-append (flatten chunks) end,
              length-packet l.pad1 l.pad2 bytes,
            )))
          arrive,
      l.notice,
    )
