-- ===== src/Text/Paths.antt =====
-- What the path functions take for the file name.
use mathlib.Core.List.{append-nil, append_assoc, map-append}
use libiocp.Base.{
  ℕ, ◌+◌, ◌-◌, ◌≤◌, ◌≡◌, ◌⊎◌, inl, inr, refl, sym, ap, ap₂, ◌∙◌, Bool, List, [], ◌∷◌, ◌++◌, Option,
  none, some, arith, length, take, drop, get_or, dec_le, length-append, take_all, split_prefix,
  get_or-append,
}
use libiocp.Text.{
  find_last, is, backslash, slash, substr, behind_last, path2file, path_split, unify, ended,
}
use libiocp.Text.Find.{Never, Never-mid, At-le, At-upto, At-behind, Last, find_last-Last}
use libiocp.Text.Split.{is-eq}

-- A directory is empty or ends with a slash.
abbrev pub IsDirectory : List ℕ → Type 0
IsDirectory dir = (dir ≡ []) ⊎ ((rest : List ℕ) × (dir ≡ rest ++ slash ∷ []))

-- A file of a directory, in a text where each separator is a slash.
pub record Parts (s dir file : List ℕ) : Type 0 where
  pub whole : s ≡ dir ++ file
  pub directory : IsDirectory dir
  pub plain : Never (is slash) file

Never-tail : (p : ℕ → Bool) (xs ys : List ℕ) → Never p (xs ++ ys) → Never p ys
Never-tail p [] ys n = n
Never-tail p (x ∷ xs) ys (h, n) = Never-tail p xs ys n

-- The file that stands behind the last slash is the only one.
nothing_between :
    (dir1 file1 dir2 file2 t : List ℕ)
    → IsDirectory dir2
    → Never (is slash) file1
    → dir2 ≡ dir1 ++ t
    → t ++ file2 ≡ file1
    → (dir1 ≡ dir2) × (file1 ≡ file2)
nothing_between dir1 file1 dir2 file2 [] d n front back = (sym (front ∙ append-nil dir1), sym back)
nothing_between dir1 file1 dir2 file2 (z ∷ t) (inl d) n front back =
    absurd (omega (arith, ap length (sym d ∙ front), length-append dir1 (z ∷ t)))
nothing_between dir1 file1 dir2 file2 (z ∷ t) (inr (rest, d)) n front back =
    let k : rest ++ slash ∷ [] ≡ dir1 ++ z ∷ t = sym d ∙ front in
    let (u, _, ends) =
      split_prefix rest (slash ∷ []) dir1 (z ∷ t) k
        (omega (arith, ap length k, length-append rest (slash ∷ []), length-append dir1 (z ∷ t))) in
    let whole : u ++ slash ∷ file2 ≡ file1 =
      sym (append_assoc u (slash ∷ []) file2) ∙ ap (λ xs. xs ++ file2) ends ∙ back in
    cc (Never-mid (is slash) u slash file2 (rw whole n))

file_shorter :
    (dir1 file1 dir2 file2 : List ℕ)
    → IsDirectory dir2
    → Never (is slash) file1
    → dir1 ++ file1 ≡ dir2 ++ file2
    → length dir1 ≤ length dir2
    → (dir1 ≡ dir2) × (file1 ≡ file2)
file_shorter dir1 file1 dir2 file2 d n e le =
    let (t, front, back) = split_prefix dir2 file2 dir1 file1 (sym e) le in
    nothing_between dir1 file1 dir2 file2 t d n front back

file_unique :
    {s dir1 file1 dir2 file2 : List ℕ}
    → Parts s dir1 file1
    → Parts s dir2 file2
    → (dir1 ≡ dir2) × (file1 ≡ file2)
file_unique {s} {dir1} {file1} {dir2} {file2} a b = elim (dec_le (length dir1) (length dir2)) [
  | yes le ↦ file_shorter dir1 file1 dir2 file2 b.directory a.plain (sym a.whole ∙ b.whole) le
  | no gt ↦
      let (dir, file) =
        file_shorter dir2 file2 dir1 file1 a.directory b.plain (sym b.whole ∙ a.whole)
          (omega arith) in
      (sym dir, sym file)
]

ended-slash : (xs : List ℕ) → ended (xs ++ slash ∷ []) ≡ xs ++ slash ∷ []
ended-slash xs = ground (
  arith,
  length-append xs (slash ∷ []),
  get_or-append xs (slash ∷ []) (length (xs ++ slash ∷ []) - 1) 0,
  last xs,
)
  where
    last : (ys : List ℕ) → get_or (slash ∷ []) (length (ys ++ slash ∷ []) - 1 - length ys) 0 ≡ slash
    last ys =
        let k : length (ys ++ slash ∷ []) - 1 - length ys ≡ 0 =
          omega (arith, length-append ys (slash ∷ [])) in
        ap (λ j. get_or (slash ∷ []) j 0) k

path_split_as :
    (path : List ℕ) (o : Option ℕ)
    → find_last (is slash) (unify path) ≡ o
    → Last (is slash) (unify path) o
    → (dir : List ℕ) × (file : List ℕ) × (path_split path ≡ some (dir, file))
      × Parts (unify path) dir file
unfolding path_split
path_split_as path none e n = (
  [],
  unify path,
  rw (e, path_split) refl,
  record { whole = refl; directory = inl refl; plain = n },
)
path_split_as path (some i) e (a, n) = (
  a.front ++ slash ∷ [],
  a.back,
  shown (is-eq slash a.x a.holds),
  record {
    whole =
        a.cut
        ∙ ap (λ c. a.front ++ c ∷ a.back) (is-eq slash a.x a.holds)
        ∙ sym (append_assoc a.front (slash ∷ []) a.back);
    directory = inr (a.front, refl);
    plain = n;
  },
)
  where
    whole_rest : take (length (unify path) - i - 1) (drop (i + 1) (unify path)) ≡ a.back
    whole_rest =
        ap (take (length (unify path) - i - 1)) (At-behind a)
        ∙ take_all (length (unify path) - i - 1) a.back
            (omega (arith, a.place, ap length a.cut, length-append a.front (a.x ∷ a.back)))

    shown : a.x ≡ slash → path_split path ≡ some (a.front ++ slash ∷ [], a.back)
    shown k =
        rw (e, path_split) (ground (arith, At-le a, whole_rest, At-upto a, ended-slash a.front))

-- The part of a text behind the last `c`, and what stands before it.
record Behind (c : ℕ) (s rest : List ℕ) : Type 0 where
  front : List ℕ
  cut : s ≡ front ++ rest
  plain : Never (is c) rest
  edge : (front ≡ []) ⊎ ((f : List ℕ) × (front ≡ f ++ c ∷ []))

Behind-as :
    (s : List ℕ) (c : ℕ) (o : Option ℕ)
    → Last (is c) s o
    → (rest : List ℕ) × (elim o as (λ (x : Option ℕ). Option (List ℕ)) [
      | none ↦ some s
      | some pos ↦ substr s (pos + 1)
    ]
        ≡ some rest)
      × Behind c s rest
Behind-as s c none n = (s, refl, record { front = []; cut = refl; plain = n; edge = inl refl })
Behind-as s c (some i) (a, n) = (
  a.back,
  ground (arith, At-le a, At-behind a),
  record {
    front = a.front ++ c ∷ [];
    cut =
        a.cut
        ∙ ap (λ x. a.front ++ x ∷ a.back) (is-eq c a.x a.holds)
        ∙ sym (append_assoc a.front (c ∷ []) a.back);
    plain = n;
    edge = inr (a.front, refl);
  },
)

behind_last_lem :
    (s : List ℕ) (c : ℕ) → (rest : List ℕ) × (behind_last s c ≡ some rest) × Behind c s rest
behind_last_lem s c = Behind-as s c (find_last (is c) s) (find_last-Last (is c) s)

unify-append : (xs ys : List ℕ) → unify (xs ++ ys) ≡ unify xs ++ unify ys
unfolding unify
unify-append xs ys = rw map-append

unify_plain : (xs : List ℕ) → Never (is backslash) xs → unify xs ≡ xs
unfolding unify
unify_plain [] n = refl
unify_plain (x ∷ xs) (h, n) = ground (arith, unify_plain xs n)

-- The two parts before the file, with each separator a slash.
unify-IsDirectory :
    (f1 f2 : List ℕ)
    → (f1 ≡ []) ⊎ ((f : List ℕ) × (f1 ≡ f ++ backslash ∷ []))
    → (f2 ≡ []) ⊎ ((f : List ℕ) × (f2 ≡ f ++ slash ∷ []))
    → IsDirectory (unify f1 ++ unify f2)
unfolding unify
unify-IsDirectory f1 f2 (inl a) (inl b) = inl (rw (a, b) refl)
unify-IsDirectory f1 f2 (inr (f, a)) (inl b) =
    inr (
      unify f,
      ap₂ (λ x y. unify x ++ unify y) a b ∙ append-nil _ ∙ unify-append f (backslash ∷ []),
    )
unify-IsDirectory f1 f2 a (inr (f, b)) = inr (
  unify f1 ++ unify f,
  ap (λ y. unify f1 ++ unify y) b
      ∙ ap (◌++◌ (unify f1)) (unify-append f (slash ∷ []))
      ∙ sym (append_assoc (unify f1) (unify f) (slash ∷ [])),
)

path2file_lem :
    (path : List ℕ)
    → (dir : List ℕ) × (file : List ℕ) × (path2file path ≡ some file) × Parts (unify path) dir file
unfolding path2file
path2file_lem path =
    let (b1, shown1, c1) = behind_last_lem path backslash in
    let (b2, shown2, c2) = behind_last_lem b1 slash in
    (
      unify c1.front ++ unify c2.front,
      b2,
      rw (shown1, path2file) shown2,
      record {
        whole =
            ap unify (c1.cut ∙ ap (◌++◌ c1.front) c2.cut)
            ∙ unify-append c1.front (c2.front ++ b2)
            ∙ ap (◌++◌ (unify c1.front)) (
                unify-append c2.front b2
                ∙ ap (◌++◌ (unify c2.front)) (
                    unify_plain b2
                      (Never-tail (is backslash) c2.front b2 (rw (← c2.cut) c1.plain))))
            ∙ sym (append_assoc (unify c1.front) (unify c2.front) b2);
        directory = unify-IsDirectory c1.front c2.front c1.edge c2.edge;
        plain = c2.plain;
      },
    )

-- `path_split` cuts a path, with each backslash made a slash, behind the last slash; its file name
-- has no slash, the two parts are the path, and `path2file` finds the same file name.
pub path2file-path_split :
    (path : List ℕ)
    → (dir : List ℕ) × (file : List ℕ) × (path_split path ≡ some (dir, file))
      × (path2file path ≡ some file)
      × Parts (unify path) dir file
path2file-path_split path =
    let (dir, file, cut, parts) =
      path_split_as path (find_last (is slash) (unify path)) refl
        (find_last-Last (is slash) (unify path)) in
    let (dir', file', found, parts') = path2file_lem path in
    (dir, file, cut, found ∙ ap some (file_unique parts' parts).1, parts)
