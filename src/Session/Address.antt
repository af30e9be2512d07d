-- ===== src/Session/Address.antt =====
-- inc/sglib/iocp/iocp_session_ioT.h: ip_addr, which formats the address of the peer.
pub mod Decimal
pub mod Reading
mod Tests
use libiocp.Base.{
  ℕ, zero, suc, ◌+◌, ◌-◌, ◌*◌, ◌/◌, ◌%◌, ◌^◌, ◌≤◌, ◌<◌, ◌≡◌, ◌≢◌, sym, ap, ◌∙◌, true, false, List,
  [], ◌∷◌, ◌++◌, Option, some, length, arith, ◌==◌, ltb, if◌then◌else◌, length-append, dec_lt,
}
use libiocp.Text.{format}

-- `S_un_b`: the four bytes of an address.
pub record InAddr : Type 0 where
  pub s_b1 : ℕ
  pub s_b2 : ℕ
  pub s_b3 : ℕ
  pub s_b4 : ℕ

pub record IsInAddr (a : InAddr) : Type 0 where
  pub byte1 : a.s_b1 < 256
  pub byte2 : a.s_b2 < 256
  pub byte3 : a.s_b3 < 256
  pub byte4 : a.s_b4 < 256

-- `_vsnprintf` is an argument: the text that it makes of a format and its numbers.
unfoldable pub ip_addr : (vsnprintf : (format args : List ℕ) → List ℕ) → InAddr → Option (List ℕ)
unfolding format
ip_addr vsnprintf a =
    let fmt = b'%' ∷ b'd' ∷ b'.' ∷ b'%' ∷ b'd' ∷ b'.' ∷ b'%' ∷ b'd' ∷ b'.' ∷ b'%' ∷ b'd' ∷ [] in
    format (vsnprintf fmt (a.s_b1 ∷ a.s_b2 ∷ a.s_b3 ∷ a.s_b4 ∷ []))

-- A number in decimal, whose digits are `fuel` and one at most.
unfoldable pub digits_up : (fuel n : ℕ) → List ℕ
digits_up zero n = (b'0' + n) ∷ []
digits_up (suc fuel) n =
    let front = digits_up fuel (n / 10) in
    if ltb n 10 then (b'0' + n) ∷ [] else front ++ (b'0' + n % 10) ∷ []

abbrev pub decimal : ℕ → List ℕ
decimal n = digits_up n n

-- What the C library says of _vsnprintf, for numbers that are not negative.
pub record PrintsDecimal (vsnprintf : (format args : List ℕ) → List ℕ) : Type 0 where
  pub ends : (args : List ℕ) → vsnprintf [] args ≡ []
  pub copies :
      (c : ℕ) (format args : List ℕ)
      → c ≢ b'%'
      → vsnprintf (c ∷ format) args ≡ c ∷ vsnprintf format args
  pub converts :
      (x : ℕ) (format args : List ℕ)
      → vsnprintf (b'%' ∷ b'd' ∷ format) (x ∷ args) ≡ decimal x ++ vsnprintf format args

-- The numbers between the dots of a text; the first has begun with `value`.
unfoldable pub read_numbers : List ℕ → (value : ℕ) → List ℕ
read_numbers [] value = value ∷ []
read_numbers (c ∷ cs) value = elim (c == b'.') [
  | true ↦ value ∷ read_numbers cs 0
  | false ↦ read_numbers cs (value * 10 + (c - b'0'))
]
