-- ===== src/Text/Scanning.antt =====
-- inc/sglib/sglib_string.h: vsscanf, which gives sscanf one conversion of the format at a time.
pub mod Parts
mod Tests
use libiocp.Base.{
  ℕ, zero, suc, ◌+◌, ◌≡◌, ◌≢◌, refl, sym, ap, ◌∙◌, ◌⊎◌, inl, inr, Bool, true, false, ◌||◌, List, [],
  ◌∷◌, ◌++◌, Option, none, some, arith, drop, take, length, ltb, ◌==◌, if◌then◌else◌, ℤ, pos, ◌+ℤ◌,
}

abbrev pub percent : ℕ
percent = b'%'

-- What sscanf leaves: its result, and the count that a `%n` at the end has stored, if it got there.
pub record Scanned : Type 0 where
  pub conv : ℤ
  pub lu : Option ℕ

-- A call of sscanf with the next pointer: the text and the part of the format; `counted` tells
-- whether "%n" stands behind the part.
pub record ScanCall : Type 0 where
  pub str : List ℕ
  pub part : List ℕ
  pub counted : Bool

-- How `vsscanf` ends; `overrun` is the read behind the end of the format.
pub data ScanEnd : Type 0 where
  scanned : (convtot : ℤ) → List ScanCall → ScanEnd
  overrun : ScanEnd

abbrev pub skips : ℕ → Bool
skips x = x == percent || x == b'*'

module _ (sscanf : (str format : List ℕ) → Scanned) where
  -- The end of `vsscanf`, at the end of the format.
  abbrev scan_last : (part str : List ℕ) → (marked : Bool) → ℤ → List ScanCall → ScanEnd
  scan_last part str false convtot calls = scanned convtot calls
  scan_last part str true convtot calls =
      scanned (convtot +ℤ (sscanf str part).conv)
        (calls ++ (record { str = str; part = part; counted = false }) ∷ [])

  -- The loop of `vsscanf`: `part` is the format up to `i`, and `marked` is `n`. Behind a call the
  -- format starts at the `%` where the part ends, which the next turn marks.
  unfoldable pub scan_loop :
      (part rest str : List ℕ) → (marked : Bool) → ℤ → List ScanCall → ScanEnd
  scan_loop part [] str marked convtot calls = scan_last part str marked convtot calls
  scan_loop part (c ∷ []) str marked convtot calls =
      if c == percent then overrun else scan_last (part ++ c ∷ []) str marked convtot calls
  scan_loop part (c ∷ x ∷ rest) str marked convtot calls =
      let skipped = scan_loop (part ++ c ∷ x ∷ []) rest str marked convtot calls in
      let passed =
        scan_loop (part ++ c ∷ []) (x ∷ rest) str (c == percent || marked) convtot calls in
      let r = sscanf str (part ++ percent ∷ b'n' ∷ []) in
      let called = calls ++ (record { str = str; part = part; counted = true }) ∷ [] in
      let cut : ScanEnd = elim r.lu [
        | none ↦ scanned (convtot +ℤ r.conv) called
        | some lu ↦ scan_loop (c ∷ []) (x ∷ rest) (drop lu str) true (convtot +ℤ pos 1) called
      ] in
      if c == percent then (if skips x then skipped else if marked then cut else passed) else passed

  unfoldable pub vsscanf : (str format : List ℕ) → ScanEnd
  unfolding scan_loop
  vsscanf str format = scan_loop [] format str false (pos 0) []

  -- `scanf` takes its arguments in place of a list of them.
  unfoldable pub scanf : (buf fmt : List ℕ) → ScanEnd
  unfolding vsscanf
  scanf buf fmt = vsscanf buf fmt
