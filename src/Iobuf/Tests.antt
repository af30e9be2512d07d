-- ===== src/Iobuf/Tests.antt =====
-- iobuf on a storage of five bytes, with the contents going round its end.
use mathlib.Core.Equiv.{IsEquiv}
use libiocp.Base.{◌↔◌, ◌≡◌, refl, [], ◌∷◌, ◌++◌, arith, write}
use libiocp.Iobuf.{Iobuf, get_used_bufs, trail_move, length_used}
use libiocp.Iobuf.Valid.{IsValid}
use libiocp.Iobuf.Contents.{contents, used_bufs-contents}
use libiocp.Iobuf.Fill.{contents-append}
use libiocp.Iobuf.Abstract.{Ring, bytes_of, bytes_of-IsEquiv}
use libiocp.Iobuf.Steps.{takes, fills, RingRun, ListRun, run_iff}

abbrev wrapped : Iobuf
wrapped = record { buf = 13 ∷ 0 ∷ 0 ∷ 11 ∷ 12 ∷ []; size = 5; head = 3; trail = 1 }

abbrev straight : Iobuf
straight = record { buf = 0 ∷ 0 ∷ 11 ∷ 0 ∷ 0 ∷ []; size = 5; head = 2; trail = 3 }

wrapped-IsValid : IsValid wrapped
wrapped-IsValid = omega arith

straight-IsValid : IsValid straight
straight-IsValid = omega arith

contents-wrapped : contents wrapped ≡ 11 ∷ 12 ∷ 13 ∷ []
unfolding length_used
contents-wrapped = refl

used_bufs-contents_example : (11 ∷ 12 ∷ []) ++ (13 ∷ []) ≡ contents wrapped
unfolding get_used_bufs
used_bufs-contents_example = used_bufs-contents wrapped wrapped-IsValid

contents-append_example :
    contents (trail_move (record straight { buf = write 3 (21 ∷ 22 ∷ []) straight.buf }) 2)
    ≡ 11 ∷ 21 ∷ 22 ∷ []
unfolding length_used
contents-append_example =
    contents-append straight (21 ∷ 22 ∷ []) straight-IsValid (omega arith) (omega arith)

abbrev ring : Ring 5
ring = record { buffer = wrapped; valid = wrapped-IsValid; sized = refl }

run_iff_example :
    ListRun (takes 1 ∷ fills (21 ∷ 22 ∷ []) ∷ []) 5 (contents wrapped) (12 ∷ 13 ∷ 21 ∷ 22 ∷ []) ↔ (
      (s : Ring 5) × RingRun (takes 1 ∷ fills (21 ∷ 22 ∷ []) ∷ []) 5 ring s
      × (contents s.buffer ≡ 12 ∷ 13 ∷ 21 ∷ 22 ∷ []))
run_iff_example = run_iff 5 (takes 1 ∷ fills (21 ∷ 22 ∷ []) ∷ []) ring (12 ∷ 13 ∷ 21 ∷ 22 ∷ [])

bytes_of_runs : IsEquiv (bytes_of {n = 5})
bytes_of_runs = bytes_of-IsEquiv 5
