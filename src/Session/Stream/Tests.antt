-- ===== src/Session/Stream/Tests.antt =====
-- Two messages, of which the first arrives in two pieces.
use libiocp.Base.{ℕ, ◌≡◌, inl, inr, refl, true, List, [], ◌∷◌, ◌++◌, arith, write}
use libiocp.Iobuf.{get_unused_bufs, trail_move, length_used}
use libiocp.Frame.{le16, le32}
use libiocp.Session.Io.{
  completed, failed, process_iocp, recv_olp, recv_extract_package, wsa_io_pending,
}
use libiocp.Session.Arrival.{land}
use libiocp.Session.Reader.{
  Message, Reader, observe, ReadStep, arrives, ReadSteps, none_yet, and_then,
}
use libiocp.Session.Stream.{Reads}
use libiocp.Session.Stream.Order.{bodies, stream_order}
use libiocp.Session.Tests.{world, storage, first, second, buffer-IsValid}

abbrev msgs : List Message
msgs =
    record { pad1 = 0; pad2 = 0; bytes = 5 ∷ 6 ∷ [] }
    ∷ record { pad1 = 0; pad2 = 0; bytes = 7 ∷ [] }
    ∷ []

-- The second message.
abbrev coming : List ℕ
coming = 0xfe ∷ 0xef ∷ 0 ∷ 0 ∷ 1 ∷ 0 ∷ 0 ∷ 0 ∷ 7 ∷ []

abbrev fresh : Reader
fresh = record { world = world; reading = true; got = [] }

fresh-Reads : Reads 16 3 fresh msgs ((first ++ second) ++ coming)
unfolding length_used le16 le32
fresh-Reads = record {
  valid = buffer-IsValid;
  sized = refl;
  runs = refl;
  open_socket = λ e. omega arith;
  fit = omega arith;
  stream = refl;
  op = λ e. refl;
  lent = λ e. omega arith;
  short = λ e. omega arith;
}

abbrev half : Reader
half =
    observe world
      (process_iocp (land world (write 0 [] (write 0 first storage))) 3 recv_olp 0
        (failed wsa_io_pending))
      []

abbrev whole : Reader
whole =
    observe half.world
      (process_iocp (land half.world (write 0 [] (write 3 second half.world.session.recv_buf.buf)))
        7 recv_olp 0 completed)
      half.got

first_step : ReadStep 3 fresh first half
unfolding length_used get_unused_bufs write
first_step =
    arrives first _ (failed wsa_io_pending) 0 refl (omega arith) (omega arith, refl) (omega arith)
      (inr refl)

second_step : ReadStep 3 half second whole
unfolding length_used get_unused_bufs write process_iocp trail_move recv_extract_package
second_step =
    arrives second _ completed 0 refl (omega arith) (omega arith, refl) (omega arith) (inl refl)

whole-Steps : ReadSteps 3 fresh (first ++ second) whole
whole-Steps = and_then (and_then (none_yet refl) first_step refl) second_step refl

stream_order_example :
    (left : List Message) × (bodies msgs ≡ whole.got ++ bodies left)
    × Reads 16 3 whole left coming
    × (coming ≡ [] → whole.reading ≡ true → whole.got ≡ bodies msgs)
stream_order_example =
    stream_order fresh whole msgs (first ++ second) coming fresh-Reads refl whole-Steps
