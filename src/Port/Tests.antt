-- ===== src/Port/Tests.antt =====
-- Ports with one worker and with two.
use libiocp.Base.{◌+◌, ◌≤◌, ◌⊎◌, inl, ◌≡◌, ◌<◌, refl, arith}
use libiocp.Port.{
  PortState, port_opened, closed, waiting, begins, posts, posted_all, worker_quits, closes,
  PortReach, here, next,
}
use libiocp.Port.Close.{PortSteps, closed_workers, close_returns}

abbrev shut : PortState
shut = record { thread_count = 1; live = 0; nulls = 0; released = 0; closer = closed }

shut-Reach : PortReach 1 shut
unfolding port_opened
shut-Reach =
    next
      (next
        (next (next (next here (begins refl)) (posts 0 refl (omega arith)))
          (posted_all 1 refl (omega arith)))
        (worker_quits (omega arith) (omega arith)))
      (closes refl (omega arith))

closed_workers_example :
    ((shut.live < 1) × (shut.live + shut.released + 1 ≡ 1) × (shut.nulls ≡ shut.live))
    ⊎ (shut.live + shut.released ≡ 1) × (shut.nulls ≤ shut.live)
closed_workers_example = closed_workers shut-Reach (inl refl)

abbrev asked : PortState
asked = record { thread_count = 1; live = 1; nulls = 1; released = 0; closer = waiting }

asked-Reach : PortReach 1 asked
unfolding port_opened
asked-Reach =
    next (next (next here (begins refl)) (posts 0 refl (omega arith)))
      (posted_all 1 refl (omega arith))

close_returns_example :
    (t : PortState) × PortSteps asked t
    × (t.closer ≡ closed)
    × (asked.live ≤ t.live + 1)
    × (t.thread_count ≡ 1)
close_returns_example = close_returns asked-Reach (omega arith) refl
