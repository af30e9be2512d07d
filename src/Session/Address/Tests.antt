-- ===== src/Session/Address/Tests.antt =====
-- The address 127.0.0.1.
use libiocp.Base.{
  ℕ, ◌≤◌, ◌≡◌, refl, List, [], ◌∷◌, ◌++◌, Bool, true, false, some, length, arith, ◌==◌,
  if◌then◌else◌,
}
use libiocp.Text.{format}
use libiocp.Session.Address.{InAddr, ip_addr, decimal, digits_up, PrintsDecimal, read_numbers}
use libiocp.Session.Address.Reading.{ip_addr-read}

-- A `_vsnprintf` that knows no conversion but %d; `marked` behind a %.
abbrev printed : (marked : Bool) → List ℕ → List ℕ → List ℕ
printed marked [] args = []
printed true (c ∷ fmt) [] = []
printed true (c ∷ fmt) (x ∷ args) = decimal x ++ printed false fmt args
printed false (c ∷ fmt) args =
    let plain = c ∷ printed false fmt args in
    let directive = printed true fmt args in if c == b'%' then directive else plain

printed-PrintsDecimal : PrintsDecimal (printed false)
printed-PrintsDecimal = record {
  ends = λ args. refl;
  copies = λ c fmt args ne. ground arith;
  converts = λ x fmt args. refl;
}

abbrev local : InAddr
local = record { s_b1 = 127; s_b2 = 0; s_b3 = 0; s_b4 = 1 }

ip_addr_runs :
    ip_addr (printed false) local
    ≡ some (b'1' ∷ b'2' ∷ b'7' ∷ b'.' ∷ b'0' ∷ b'.' ∷ b'0' ∷ b'.' ∷ b'1' ∷ [])
unfolding ip_addr format digits_up
ip_addr_runs = refl

ip_addr-read_example :
    (text : List ℕ) × (ip_addr (printed false) local ≡ some text)
    × (length text ≤ 15)
    × (read_numbers text 0 ≡ 127 ∷ 0 ∷ 0 ∷ 1 ∷ [])
ip_addr-read_example =
    ip_addr-read (printed false) local printed-PrintsDecimal (record {
      byte1 = omega arith;
      byte2 = omega arith;
      byte3 = omega arith;
      byte4 = omega arith;
    })
