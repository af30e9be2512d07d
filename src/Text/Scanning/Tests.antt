-- ===== src/Text/Scanning/Tests.antt =====
-- A format with two conversions, on a sscanf that reads one character for each.
use libiocp.Base.{ℕ, ◌≡◌, refl, true, false, List, [], ◌∷◌, none, some, pos, negsuc, ◌+ℤ◌, zero_int}
use libiocp.Text.Scanning.{Scanned, scanned, overrun, vsscanf, percent}
use libiocp.Text.Scanning.Parts.{Splits, vsscanf-Splits}

abbrev sscanf : (str form : List ℕ) → Scanned
sscanf [] form = record { conv = negsuc 0; lu = none }
sscanf (c ∷ str) form = record { conv = pos 1; lu = some 1 }

-- "%d %d"
abbrev two : List ℕ
two = percent ∷ b'd' ∷ b' ' ∷ percent ∷ b'd' ∷ []

vsscanf-Splits_example : Splits sscanf two two false [] (vsscanf sscanf (b'4' ∷ b'5' ∷ []) two)
vsscanf-Splits_example = vsscanf-Splits sscanf (b'4' ∷ b'5' ∷ []) two

-- The end of the text takes back the conversion that has succeeded.
short_text :
    vsscanf sscanf (b'4' ∷ []) two
    ≡ scanned zero_int (
        record { str = b'4' ∷ []; part = percent ∷ b'd' ∷ b' ' ∷ []; counted = true }
        ∷ record { str = []; part = percent ∷ b'd' ∷ []; counted = false }
        ∷ [])
unfolding vsscanf ◌+ℤ◌
short_text = refl

ends_in_percent : vsscanf sscanf (b'4' ∷ []) (b'a' ∷ percent ∷ []) ≡ overrun
unfolding vsscanf
ends_in_percent = refl
