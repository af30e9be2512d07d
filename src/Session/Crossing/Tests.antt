-- ===== src/Session/Crossing/Tests.antt =====
-- The bytes 5 and 6, sent in two transfers and received in two others.
use libiocp.Base.{◌≡◌, refl, inl, inr, List, [], ◌∷◌, arith, write}
use libiocp.Iobuf.{
  get_unused_bufs, get_used_bufs, trail_move, length_used, head_move, reset, detect_add,
}
use libiocp.Frame.{le16, le32, put_header}
use libiocp.Queue.{put}
use libiocp.Session.State.{World, SysCall, wsa_send, send_finished}
use libiocp.Session.Io.{
  completed, failed, process_iocp, send_olp, recv_extract_package, wsa_io_pending,
}
use libiocp.Session.Api.{send, send_init, send_add}
use libiocp.Session.Arrival.{Delivered}
use libiocp.Session.Drain.{sent_notice}
use libiocp.Session.Crossing.{crossing}
use libiocp.Session.Tests.{world, first, second, arrived, awaits, buffer-IsValid}

abbrev sent : World
sent = (send world (5 ∷ 6 ∷ []) completed).0

abbrev out : World
out = process_iocp (process_iocp sent 4 send_olp 0 completed) 6 send_olp 0 completed

abbrev made : List SysCall
made =
    wsa_send (0xfe ∷ 0xef ∷ 0 ∷ 0 ∷ 2 ∷ 0 ∷ 0 ∷ 0 ∷ 5 ∷ 6 ∷ [])
    ∷ wsa_send (2 ∷ 0 ∷ 0 ∷ 0 ∷ 5 ∷ 6 ∷ [])
    ∷ []

crossing_example :
    Delivered world arrived (5 ∷ 6 ∷ []) [] × (out.queue ≡ (put world.queue (sent_notice sent)).0)
unfolding le16 le32 length_used get_unused_bufs process_iocp write trail_move recv_extract_package
    send send_add send_init put_header head_move reset get_used_bufs detect_add send_finished
crossing_example =
    crossing world out world arrived (5 ∷ 6 ∷ []) (4 ∷ []) 6 completed made (first ∷ []) second
      buffer-IsValid (λ e. omega arith) (inl refl) (omega arith) refl refl (omega arith)
      (completed, 0, omega arith, inl refl, (completed, 0, omega arith, inl refl, refl)) refl awaits
      refl refl (omega arith)
      (
        _,
        failed wsa_io_pending,
        0,
        omega arith,
        (omega arith, refl),
        inr refl,
        (_, completed, 0, omega arith, (omega arith, refl), inl refl, refl),
      )
