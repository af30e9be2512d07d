-- ===== src/Reference.antt =====
-- inc/sglib/sglib_refT.h and sglib_singletonT.h: counts of references, and the only object of a class.
pub mod Balance
pub mod Threads
mod Tests
use libiocp.Base.{
  ℕ, suc, zero, ◌+◌, Bool, true, false, List, [], ◌∷◌, Option, none, some, if◌then◌else◌, ℤ, pos,
  negsuc, inc, dec,
}

-- `destroyed` counts the calls of `destroy`.
pub record Counted : Type 0 where
  pub refs : ℤ
  pub destroyed : ℕ

-- The constructors of refT and threadrefT.
unfoldable pub ref_create : Counted
ref_create = record { refs = pos 0; destroyed = 0 }

unfoldable pub threadref_create : Counted
threadref_create = record { refs = pos 1; destroyed = 0 }

-- `ref`, `deref` and `get_ref` of refT. The last two of threadrefT do the same on its count.
unfoldable pub ref : Counted → Counted × ℤ
ref c = let n = inc c.refs in (record c { refs = n }, n)

abbrev pub not_positive : ℤ → Bool
not_positive (pos (suc n)) = false
not_positive _ = true

unfoldable pub deref : Counted → Counted × ℤ
deref c =
    let d = record c { refs = dec c.refs } in
    if not_positive d.refs then (record d { destroyed = d.destroyed + 1 }, pos 0) else (d, d.refs)

-- threadrefT::deref up to its test: the decrement, and whether it goes on to `destroy`.
unfoldable pub threadref_dec : Counted → Counted × Bool
threadref_dec c = let d = record c { refs = dec c.refs } in (d, not_positive d.refs)

unfoldable pub get_ref : Counted → ℤ
get_ref c = c.refs

-- singletonT::instance: the static `_instance` before and after the call, and the result. A `ptr` of 0
-- is `none`.
unfoldable pub instance_of : Option ℕ → Option ℕ → Option ℕ × Option ℕ
instance_of stored none = (stored, stored)
instance_of stored (some ptr) = (some ptr, some ptr)

-- The constructor of a singletonT at `this`, and `get_singleton`.
unfoldable pub singleton_create : Option ℕ → (this : ℕ) → Option ℕ
unfolding instance_of
singleton_create stored this = (instance_of stored (some this)).0

unfoldable pub get_singleton : Option ℕ → Option ℕ
unfolding instance_of
get_singleton stored = (instance_of stored none).1
