-- ===== src/Session/Drain.antt =====
-- The completions of WSASend, one after another, until a package is out.
use mathlib.Core.List.{append-nil, append_assoc}
use libiocp.Base.{
  ℕ, ◌+◌, ◌<◌, ◌≡◌, sym, ap, ◌∙◌, ◌≢◌, List, [], ◌∷◌, ◌++◌, arith, length, drop, length-drop,
}
use libiocp.Iobuf.{Iobuf, length_used, head_move}
use libiocp.Iobuf.Valid.{length-head_move}
use libiocp.Iobuf.Contents.{contents, length-contents, contents-head_move}
use libiocp.Package.{Package, NetStatus}
use libiocp.Queue.{put}
use libiocp.Session.State.{World, SysCall, wsa_send, send_finished}
use libiocp.Session.Io.{IoResult, send_block, send_package, process_iocp, send_olp}
use libiocp.Session.Arrival.{Started}
use libiocp.Session.Staging.{IsStaged}
use libiocp.Session.Sending.{BlockSent, send_block_lem, Sends, block-Sends}

head_move-IsStaged : (b : Iobuf) (n : ℕ) → IsStaged b → n < length_used b → IsStaged (head_move b n)
unfolding head_move length_used
head_move-IsStaged b n s h = ground (arith, s.straight)

-- A completion that leaves something to send makes one WSASend of the rest.
send_rest :
    (w : World) (bytes : List ℕ) (n err : ℕ) (io : IoResult)
    → Sends w bytes
    → Started io
    → 0 < n
    → n < length bytes
    → let v = process_iocp w n send_olp err io in
      (v.calls ≡ w.calls ++ wsa_send (drop n bytes) ∷ [])
      × (v.queue ≡ w.queue)
      × (v.session.id ≡ w.session.id)
      × (v.session.pack_size ≡ w.session.pack_size)
      × Sends v (drop n bytes)
unfolding process_iocp send_package
send_rest w bytes n err io s st pos less = rw again (
  f.calls ∙ ap (λ xs. w.calls ++ wsa_send xs ∷ []) held,
  f.queue,
  f.id,
  f.pack_size,
  block-Sends w1 (drop n bytes) io staged st s.open_socket held,
)
  where
    used : length_used w.session.send_buf ≡ length bytes
    used = omega (arith, length-contents w.session.send_buf, ap length s.held)

    w1 : World
    w1 = record w { session = record (w.session) { send_buf = head_move w.session.send_buf n } }

    staged : IsStaged w1.session.send_buf
    staged = head_move-IsStaged w.session.send_buf n s.staged (omega (arith, used))

    held : contents w1.session.send_buf ≡ drop n bytes
    held =
        contents-head_move w.session.send_buf n s.staged.valid (omega (arith, used))
        ∙ ap (drop n) s.held

    left : length_used w1.session.send_buf ≢ 0
    left e = omega (arith, used, length-head_move n s.staged.valid)

    again : process_iocp w n send_olp err io ≡ (send_block w1 io).0
    again = ground (arith, s.op, left)

    f : BlockSent w1 (send_block w1 io).0
    f = (send_block_lem w1 io staged st).1

-- The notice that the whole package is out.
abbrev pub sent_notice : World → Package
sent_notice w = record {
  status = NetStatus.send_finished;
  session = w.session.id;
  pack_size = w.session.pack_size;
  err = 0;
}

send_end :
    (w : World) (bytes : List ℕ) (n err : ℕ) (io : IoResult)
    → Sends w bytes
    → 0 < n
    → n ≡ length bytes
    → let v = process_iocp w n send_olp err io in
      (v.calls ≡ w.calls) × (v.queue ≡ (put w.queue (sent_notice w)).0)
unfolding process_iocp send_package send_finished
send_end w bytes n err io s pos all = ground (arith, s.op, s.open_socket, none_left)
  where
    none_left : length_used (head_move w.session.send_buf n) ≡ 0
    none_left = omega (
      arith,
      length-contents w.session.send_buf,
      ap length s.held,
      length-head_move n s.staged.valid,
    )

-- The completions of `counts` bytes each lead from `w` to `v`.
abbrev pub Transfers : World → List ℕ → World → Type 0
Transfers w [] v = v ≡ w
Transfers w (n ∷ counts) v =
    (io : IoResult) × (err : ℕ) × (0 < n)
    × Started io
    × Transfers (process_iocp w n send_olp err io) counts v

abbrev pub sum : List ℕ → ℕ
sum [] = 0
sum (n ∷ counts) = n + sum counts

-- The calls by which the rest of `bytes` is sent after each of the transfers.
abbrev pub resends : List ℕ → List ℕ → List SysCall
resends bytes [] = []
resends bytes (n ∷ counts) = wsa_send (drop n bytes) ∷ resends (drop n bytes) counts

-- However the system divides a package into transfers, each but the last is followed by a WSASend
-- of exactly the bytes that are left, and the last by the one notice that the package is out.
pub drain :
    (w v : World) (bytes counts : List ℕ) (last : ℕ)
    → Sends w bytes
    → sum counts + last ≡ length bytes
    → 0 < last
    → Transfers w (counts ++ last ∷ []) v
    → (v.calls ≡ w.calls ++ resends bytes counts) × (v.queue ≡ (put w.queue (sent_notice w)).0)
drain w v bytes [] last s e pos (io, err, pos', st, end) =
    let (calls, queue) = send_end w bytes last err io s pos (omega arith) in
    rw end (calls ∙ sym (append-nil w.calls), queue)
drain w v bytes (n ∷ counts) last s e pos (io, err, pos', st, run) =
    let (calls, queue, id, pack_size, sends) = send_rest w bytes n err io s st pos' (omega arith) in
    let (calls', queue') =
      drain (process_iocp w n send_olp err io) v (drop n bytes) counts last sends
        (omega (arith, length-drop n bytes)) pos run in
    (calls' ∙ rw calls (append_assoc w.calls _ _), queue' ∙ rw (queue, id, pack_size))
