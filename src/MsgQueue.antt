-- ===== src/MsgQueue.antt =====
-- inc/sglib/iocp/iocp_queue.h: class msg_queue, a queue of packages (queueT) that is the only one of its
-- class (singletonT) and counts its references (threadrefT).
use libiocp.Base.{ℕ, Option, ℤ, if◌then◌else◌}
use libiocp.Package.{NetStatus, Package}
use libiocp.Queue.{Queue, empty, put, quit, clear}
use libiocp.Reference.{Counted, threadref_create, ref, deref, not_positive, singleton_create}

pub record MsgQueue : Type 0 where
  pub packages : Queue Package
  pub counted : Counted

-- `init`: the queue, and the static `_instance` of its class.
unfoldable pub msg_queue_init : (stored : Option ℕ) (this : ℕ) → MsgQueue × Option ℕ
msg_queue_init stored this =
    (record { packages = empty; counted = threadref_create }, singleton_create stored this)

-- `destroy`, up to its `delete this`.
unfoldable pub destroy : MsgQueue → MsgQueue
destroy q = record q { packages = clear (quit q.packages) }

unfoldable pub queue_ref : MsgQueue → MsgQueue
queue_ref q = record q { counted = (ref q.counted).0 }

unfoldable pub queue_deref : MsgQueue → MsgQueue
unfolding destroy
queue_deref q =
    let c = (deref q.counted).0 in
    let d = record q { counted = c } in if not_positive c.refs then destroy d else d

unfoldable pub post_quit : MsgQueue → (junk : Package) → MsgQueue × ℤ
post_quit q junk =
    let (p, r) = put q.packages (record junk { status = NetStatus.quit }) in
    (record q { packages = p }, r)
