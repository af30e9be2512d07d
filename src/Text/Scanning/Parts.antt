-- ===== src/Text/Scanning/Parts.antt =====
-- Which parts of the format vsscanf gives to sscanf.
use mathlib.Core.List.{append_assoc, append-nil}
use mathlib.Core.Path.{subst}
use libiocp.Base.{
  ℕ, ◌≡◌, refl, sym, ap, ◌∙◌, ◌⊎◌, inl, inr, Bool, true, false, ◌||◌, List, [], ◌∷◌, ◌++◌, Option,
  none, some, arith, drop, ◌==◌, if◌then◌else◌, ℤ, pos, ◌+ℤ◌,
}
use libiocp.Text.Scanning.{
  percent, Scanned, ScanCall, ScanEnd, scanned, overrun, skips, scan_last, scan_loop, vsscanf,
}

-- The parts of the format that the calls were given, one behind the other.
pub parts : List ScanCall → List ℕ
parts [] = []
parts (c ∷ cs) = c.part ++ parts cs

parts-append : (cs ds : List ScanCall) → parts (cs ++ ds) ≡ parts cs ++ parts ds
unfolding parts
parts-append [] ds = refl
parts-append (c ∷ cs) ds =
    ap (◌++◌ c.part) (parts-append cs ds) ∙ sym (append_assoc c.part (parts cs) (parts ds))

parts-last : (cs : List ScanCall) (c : ScanCall) → parts (cs ++ c ∷ []) ≡ parts cs ++ c.part
unfolding parts
parts-last cs c = parts-append cs (c ∷ []) ∙ ap (◌++◌ (parts cs)) (append-nil c.part)

if_cases :
    {A : Type 0} (P : A → Type 0) (b : Bool) (x y : A)
    → (b ≡ true → P x)
    → (b ≡ false → P y)
    → P (if b then x else y)
if_cases P true x y f g = f refl
if_cases P false x y f g = g refl

or_false : (a b : Bool) → (a || b) ≡ false → b ≡ false
or_false true b e = cc
or_false false b e = e

at_end :
    (xs ys : List ℕ) (c : ℕ)
    → c == percent ≡ true
    → xs ++ (ys ++ c ∷ []) ≡ (xs ++ ys) ++ percent ∷ []
at_end xs ys c e =
    let same : c ≡ percent = ground arith in
    sym (append_assoc xs ys (c ∷ [])) ∙ ap (λ d. (xs ++ ys) ++ d ∷ []) same

-- Whether a format asks for anything: it has a `%` in front of something but `%`, `*` and its end,
-- not counting those behind a `%` that is skipped.
unfoldable pub asks : List ℕ → Bool
asks [] = false
asks (c ∷ []) = false
asks (c ∷ x ∷ rest) =
    let later = asks rest in
    let next = asks (x ∷ rest) in if c == percent then (if skips x then later else true) else next

asks-plain :
    (c x : ℕ) (rest : List ℕ)
    → c == percent ≡ false
    → asks (x ∷ rest) ≡ false
    → asks (c ∷ x ∷ rest) ≡ false
unfolding asks
asks-plain c x rest e h = rw e h

asks-skipped :
    (c x : ℕ) (rest : List ℕ)
    → c == percent ≡ true
    → skips x ≡ true
    → asks rest ≡ false
    → asks (c ∷ x ∷ rest) ≡ false
unfolding asks
asks-skipped c x rest e s h = rw (e, s) h

or_false_left : (a b : Bool) → (a || b) ≡ false → a ≡ false
or_false_left true b e = cc
or_false_left false b e = refl

module _ (sscanf : (str format : List ℕ) → Scanned) where
  -- The last call did not get to its "%n".
  pub record Broken (cs : List ScanCall) : Type 0 where
    pub before : List ScanCall
    pub last : ScanCall
    pub shape : cs ≡ before ++ last ∷ []
    pub missed : (sscanf last.str (last.part ++ percent ∷ b'n' ∷ [])).lu ≡ none

  -- How the calls of a loop over `whole` that ends cut it up; `rest` is what it still had to look at,
  -- and `marked` and `calls` are those it started with.
  abbrev pub Splits :
      (whole rest : List ℕ) (marked : Bool) (calls : List ScanCall) → ScanEnd → Type 0
  Splits whole rest marked calls overrun = (front : List ℕ) × (whole ≡ front ++ percent ∷ [])
  Splits whole rest marked calls (scanned convtot cs) =
      (tail : List ℕ) × (whole ≡ parts cs ++ tail)
      × ((tail ≡ []) ⊎ Broken cs ⊎ ((marked ≡ false) × (asks rest ≡ false) × (cs ≡ calls)))

  Splits-last :
      (part rest str : List ℕ) (marked : Bool) (convtot : ℤ) (calls : List ScanCall)
      → asks rest ≡ false
      → Splits
          (parts calls ++ part)
          rest
          marked
          calls
          (scan_last sscanf part str marked convtot calls)
  Splits-last part rest str false convtot calls h = (part, refl, inr (inr (refl, h, refl)))
  Splits-last part rest str true convtot calls h =
      let c : ScanCall = record { str = str; part = part; counted = false } in
      ([], sym (append-nil _ ∙ parts-last calls c), inl refl)

  -- A loop that starts further on, or with the mark set.
  Splits-step :
      (whole from rest : List ℕ) (marked next : Bool) (calls : List ScanCall) (e : ScanEnd)
      → (next ≡ false → asks rest ≡ false → (marked ≡ false) × (asks from ≡ false))
      → Splits whole rest next calls e
      → Splits whole from marked calls e
  Splits-step whole from rest marked next calls overrun h v = v
  Splits-step whole from rest marked next calls (scanned t cs) h (tail, e, inl x) = (tail, e, inl x)
  Splits-step whole from rest marked next calls (scanned t cs) h (tail, e, inr (inl x)) =
      (tail, e, inr (inl x))
  Splits-step whole from rest marked next calls (scanned t cs) h (tail, e, inr (inr (m, a, same))) =
      let (m', a') = h m a in (tail, e, inr (inr (m', a', same)))

  -- After a call the mark is set.
  Splits-call :
      (whole from rest : List ℕ) (marked : Bool) (calls called : List ScanCall) (e : ScanEnd)
      → Splits whole rest true called e
      → Splits whole from marked calls e
  Splits-call whole from rest marked calls called overrun v = v
  Splits-call whole from rest marked calls called (scanned t cs) (tail, e, inl x) = (tail, e, inl x)
  Splits-call whole from rest marked calls called (scanned t cs) (tail, e, inr (inl x)) =
      (tail, e, inr (inl x))
  Splits-call whole from rest marked calls called (scanned t cs) (tail, e, inr (inr (m, a, same))) =
      cc

  parts-called :
      (calls : List ScanCall) (str part rest : List ℕ)
      → parts calls ++ (part ++ rest)
        ≡ parts (calls ++ (record { str = str; part = part; counted = true }) ∷ []) ++ rest
  parts-called calls str part rest =
      sym (append_assoc (parts calls) part rest)
      ∙ ap (λ xs. xs ++ rest)
          (sym (parts-last calls (record { str = str; part = part; counted = true })))

  -- The call at a second conversion, by what it has stored.
  Splits-cut :
      (part rest looked str : List ℕ) (marked : Bool) (convtot : ℤ) (calls : List ScanCall)
      (conv : ℤ) (o : Option ℕ) (more : ℕ → ScanEnd)
      → (sscanf str (part ++ percent ∷ b'n' ∷ [])).lu ≡ o
      → let called = calls ++ (record { str = str; part = part; counted = true }) ∷ [] in
        ((lu : ℕ) → Splits (parts called ++ rest) looked true called (more lu))
        → Splits
            (parts calls ++ (part ++ rest))
            rest
            marked
            calls
            (elim o as (λ (p : Option ℕ). ScanEnd) [
              | none ↦ scanned (convtot +ℤ conv) called
              | some lu ↦ more lu
            ])
  Splits-cut part rest looked str marked convtot calls conv none more e h = (
    rest,
    parts-called calls str part rest,
    inr (
        inl (record {
          before = calls;
          last = record { str = str; part = part; counted = true };
          shape = refl;
          missed = e;
        })),
  )
  Splits-cut part rest looked str marked convtot calls conv (some lu) more e h =
      let called = calls ++ (record { str = str; part = part; counted = true }) ∷ [] in
      Splits-call (parts calls ++ (part ++ rest)) rest looked marked calls called (more lu) (
        subst (λ xs. Splits xs looked true called (more lu))
          (sym (parts-called calls str part rest)) (h lu))

  Splits-loop :
      (part rest str : List ℕ) (marked : Bool) (convtot : ℤ) (calls : List ScanCall)
      → Splits
          (parts calls ++ (part ++ rest))
          rest
          marked
          calls
          (scan_loop sscanf part rest str marked convtot calls)
  unfolding scan_loop asks
  Splits-loop part [] str marked convtot calls =
      subst
        (λ xs.
          Splits (parts calls ++ xs) [] marked calls
            (scan_last sscanf part str marked convtot calls))
        (sym (append-nil part)) (Splits-last part [] str marked convtot calls refl)
  Splits-loop part (c ∷ []) str marked convtot calls =
      if_cases (Splits (parts calls ++ (part ++ c ∷ [])) (c ∷ []) marked calls) (c == percent) _ _
        (λ e. (parts calls ++ part, at_end (parts calls) part c e))
        (λ e. Splits-last (part ++ c ∷ []) (c ∷ []) str marked convtot calls refl)
  Splits-loop part (c ∷ x ∷ rest) str marked convtot calls =
      let all = c ∷ x ∷ rest in
      let whole = parts calls ++ (part ++ all) in
      let beyond =
        subst
          (λ xs.
            Splits (parts calls ++ xs) rest marked calls
              (scan_loop sscanf (part ++ c ∷ x ∷ []) rest str marked convtot calls))
          (append_assoc part (c ∷ x ∷ []) rest)
          (Splits-loop (part ++ c ∷ x ∷ []) rest str marked convtot calls) in
      let skipped : c == percent ≡ true → skips x ≡ true → Splits whole all marked calls _ = λ e s.
        Splits-step whole all rest marked marked calls _ (λ m a. (m, asks-skipped c x rest e s a))
          beyond in
      let mark = c == percent || marked in
      let passed =
        Splits-step whole all (x ∷ rest) marked mark calls _
          (λ m a. (
            or_false (c == percent) marked m,
            asks-plain c x rest (or_false_left (c == percent) marked m) a,
          ))
          (subst
            (λ xs.
              Splits (parts calls ++ xs) (x ∷ rest) mark calls
                (scan_loop sscanf (part ++ c ∷ []) (x ∷ rest) str mark convtot calls))
            (append_assoc part (c ∷ []) (x ∷ rest))
            (Splits-loop (part ++ c ∷ []) (x ∷ rest) str mark convtot calls)) in
      if_cases (Splits whole all marked calls) (c == percent) _ _
        (λ e. if_cases (Splits whole all marked calls) (skips x) _ _ (skipped e) (λ s.
          if_cases (Splits whole all marked calls) marked _ _
            (λ m.
              Splits-cut part all (x ∷ rest) str marked convtot calls _ _ _ refl
                (λ lu. Splits-loop (c ∷ []) (x ∷ rest) (drop lu str) true (convtot +ℤ pos 1) _))
            (λ m. passed)))
        (λ e. passed)

  -- `vsscanf` cuts the format into the parts that it gives to sscanf and leaves nothing of it out,
  -- unless the text ends early; it makes no call only if the format asks for nothing. It reads behind
  -- the end of a format only if the format ends in a `%`.
  pub vsscanf-Splits :
      (str format : List ℕ) → Splits format format false [] (vsscanf sscanf str format)
  unfolding vsscanf parts
  vsscanf-Splits str format = Splits-loop [] format str false (pos 0) []
