-- ===== src/Session/Address/Reading.antt =====
-- The text of an address read back.
use libiocp.Base.{
  ℕ, ◌+◌, ◌≤◌, ◌<◌, ◌≡◌, ap, ◌∙◌, List, [], ◌∷◌, ◌++◌, some, length, arith, length-append,
}
use libiocp.Text.{format}
use libiocp.Text.Formatting.{Zeroless, Zeroless-append, format_whole}
use libiocp.Session.Address.{InAddr, IsInAddr, ip_addr, decimal, PrintsDecimal, read_numbers}
use libiocp.Session.Address.Decimal.{
  Decimal, digits_up-Decimal, read_decimal, Decimal-Zeroless, length-Decimal,
}

read_field :
    (n : ℕ) (t rest : List ℕ)
    → Decimal n t
    → read_numbers (t ++ b'.' ∷ rest) 0 ≡ n ∷ read_numbers rest 0
unfolding read_numbers
read_field n t rest d = read_decimal n t (b'.' ∷ rest) d

-- The text of the address behind its first dot, and the whole.
abbrev behind : InAddr → List ℕ
behind a = decimal a.s_b2 ++ b'.' ∷ (decimal a.s_b3 ++ b'.' ∷ (decimal a.s_b4 ++ []))

dotted : InAddr → List ℕ
dotted a = decimal a.s_b1 ++ b'.' ∷ (behind a)

module _ (vsnprintf : (format args : List ℕ) → List ℕ) (prints : PrintsDecimal vsnprintf) where
  print_field :
      (x : ℕ) (fmt args : List ℕ)
      → vsnprintf (b'%' ∷ b'd' ∷ b'.' ∷ fmt) (x ∷ args) ≡ decimal x ++ b'.' ∷ vsnprintf fmt args
  print_field x fmt args =
      prints.converts x (b'.' ∷ fmt) args
      ∙ ap (λ t. decimal x ++ t) (prints.copies b'.' fmt args (λ e. omega arith))

  print_address :
      (a : InAddr)
      → vsnprintf
          (b'%' ∷ b'd' ∷ b'.' ∷ b'%' ∷ b'd' ∷ b'.' ∷ b'%' ∷ b'd' ∷ b'.' ∷ b'%' ∷ b'd' ∷ [])
          (a.s_b1 ∷ a.s_b2 ∷ a.s_b3 ∷ a.s_b4 ∷ [])
        ≡ dotted a
  unfolding dotted
  print_address a =
      print_field a.s_b1 _ _
      ∙ ap (λ t. decimal a.s_b1 ++ b'.' ∷ t)
          (print_field a.s_b2 _ _
            ∙ ap (λ t. decimal a.s_b2 ++ b'.' ∷ t)
                (print_field a.s_b3 _ _
                  ∙ ap (λ t. decimal a.s_b3 ++ b'.' ∷ t)
                      (prints.converts a.s_b4 [] []
                        ∙ ap (λ t. decimal a.s_b4 ++ t) (prints.ends []))))

shown : (n : ℕ) → Decimal n (decimal n)
shown n = digits_up-Decimal n n (omega arith)

short : (n : ℕ) → n < 256 → length (decimal n) ≤ 3
short n lt = length-Decimal 2 n (decimal n) (omega arith) (shown n)

read_dotted : (a : InAddr) → read_numbers (dotted a) 0 ≡ a.s_b1 ∷ a.s_b2 ∷ a.s_b3 ∷ a.s_b4 ∷ []
unfolding dotted read_numbers
read_dotted a =
    read_field a.s_b1 _ _ (shown a.s_b1)
    ∙ ap (λ t. a.s_b1 ∷ t)
        (read_field a.s_b2 _ _ (shown a.s_b2)
          ∙ ap (λ t. a.s_b2 ∷ t)
              (read_field a.s_b3 _ _ (shown a.s_b3)
                ∙ ap (λ t. a.s_b3 ∷ t) (read_decimal a.s_b4 _ [] (shown a.s_b4))))

length-field : (n : ℕ) (rest : List ℕ) → n < 256 → length (decimal n ++ rest) ≤ 3 + length rest
length-field n rest lt = omega (arith, length-append (decimal n) rest, short n lt)

length-dotted : (a : InAddr) → IsInAddr a → length (dotted a) ≤ 15
unfolding dotted
length-dotted a v = omega (
  arith,
  length-field a.s_b1 (b'.' ∷ behind a) v.byte1,
  length-field a.s_b2 (b'.' ∷ (decimal a.s_b3 ++ b'.' ∷ (decimal a.s_b4 ++ []))) v.byte2,
  length-field a.s_b3 (b'.' ∷ (decimal a.s_b4 ++ [])) v.byte3,
  length-field a.s_b4 [] v.byte4,
)

Zeroless-field : (n : ℕ) (rest : List ℕ) → Zeroless rest → Zeroless (decimal n ++ rest)
Zeroless-field n rest z = Zeroless-append (decimal n) rest (Decimal-Zeroless n _ (shown n)) z

Zeroless-dotted : (a : InAddr) → Zeroless (dotted a)
unfolding dotted Zeroless
Zeroless-dotted a = Zeroless-field a.s_b1 _ (
  omega arith,
  Zeroless-field a.s_b2 _
      (omega arith, Zeroless-field a.s_b3 _ (omega arith, Zeroless-field a.s_b4 [] tt)),
)

-- If _vsnprintf prints numbers in decimal, `ip_addr` makes a text of at most 15 characters of the
-- four bytes of an address, and who reads the numbers between its dots gets the four bytes back.
pub ip_addr-read :
    (vsnprintf : (format args : List ℕ) → List ℕ) (a : InAddr)
    → PrintsDecimal vsnprintf
    → IsInAddr a
    → (text : List ℕ) × (ip_addr vsnprintf a ≡ some text)
      × (length text ≤ 15)
      × (read_numbers text 0 ≡ a.s_b1 ∷ a.s_b2 ∷ a.s_b3 ∷ a.s_b4 ∷ [])
unfolding ip_addr
ip_addr-read vsnprintf a prints v =
    let len = length-dotted a v in
    (
      dotted a,
      ap format (print_address vsnprintf prints a)
          ∙ format_whole (dotted a) (Zeroless-dotted a) (omega (arith, len)),
      len,
      read_dotted a,
    )
