-- ===== src/Session/Commuting/Tests.antt =====
-- A package that goes out in two parts while another comes in in two parts.
use libiocp.Base.{refl, true, false, List, [], ◌∷◌, arith}
use libiocp.Session.State.{World}
use libiocp.Session.Tests.{world, session, full, stored, buffer}
use libiocp.Session.Commuting.{Completion, sends, receives}
use libiocp.Session.Commuting.Logs.{only}
use libiocp.Session.Commuting.Runs.{run}
use libiocp.Session.Commuting.Orders.{SameOutcome, any_order}

-- The bytes that arrive are in place, as WSARecv has put them there.
abbrev both : World
both = record world {
  session = record session { send_buf = full; recv_buf = record buffer { buf = stored } };
}

abbrev mixed : List Completion
mixed = sends 4 0 true ∷ receives 3 0 true ∷ sends 6 0 false ∷ receives 7 0 true ∷ []

abbrev apart : List Completion
apart = receives 3 0 true ∷ receives 7 0 true ∷ sends 4 0 true ∷ sends 6 0 false ∷ []

any_order_example : SameOutcome (run both mixed) (run both apart)
unfolding only
any_order_example = any_order both mixed apart (refl, refl) (omega arith) (omega arith) refl refl
