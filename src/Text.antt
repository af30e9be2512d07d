-- ===== src/Text.antt =====
-- inc/sglib/sglib_string.h: the functions of sglib::string on text, as lists of characters. What the
-- functions of std::string that they call do is written out; `none` is their npos.
pub mod Find
pub mod Trim
pub mod Split
pub mod Paths
pub mod Scanning
pub mod Formatting
pub mod Convert
mod Tests
use libiocp.Base.{
  ℕ, zero, suc, ◌+◌, ◌-◌, Bool, true, false, not, List, [], ◌∷◌, ◌++◌, Option, none, some, map,
  length, take, drop, get_or, ltb, ◌==◌, if◌then◌else◌,
}

-- The first place at which the test holds, and the last.
unfoldable pub find_first : (ℕ → Bool) → List ℕ → Option ℕ
find_first p [] = none
find_first p (x ∷ xs) =
    if p x then some 0 else elim (find_first p xs) [ none ↦ none | some i ↦ some (suc i) ]

unfoldable pub find_last : (ℕ → Bool) → List ℕ → Option ℕ
find_last p [] = none
find_last p (x ∷ xs) = elim (find_last p xs) [
  | some i ↦ some (suc i)
  | none ↦ (if p x then some 0 else none)
]

abbrev pub is : ℕ → ℕ → Bool
is c x = x == c

abbrev pub is_not : ℕ → ℕ → Bool
is_not c x = not (x == c)

abbrev pub backslash : ℕ
backslash = 92

abbrev pub slash : ℕ
slash = 47

-- `substr (off)` and `substr (off, n)`; `none` where they throw.
abbrev pub substr : List ℕ → ℕ → Option (List ℕ)
substr s off = if ltb (length s) off then none else some (drop off s)

abbrev pub substr_len : List ℕ → ℕ → ℕ → Option (List ℕ)
substr_len s off n = if ltb (length s) off then none else some (take n (drop off s))

-- `::tolower` and `::toupper` are arguments.
unfoldable pub tolower : (ℕ → ℕ) → List ℕ → List ℕ
tolower to_lower s = map to_lower s

unfoldable pub toupper : (ℕ → ℕ) → List ℕ → List ℕ
toupper to_upper s = map to_upper s

-- npos is beyond the end of every text, so `substr (npos)` throws.
unfoldable pub trim_left : List ℕ → ℕ → Option (List ℕ)
trim_left s ch = elim (find_first (is_not ch) s) [ none ↦ none | some off ↦ substr s off ]

-- `npos + 1` is 0.
unfoldable pub trim_right : List ℕ → ℕ → Option (List ℕ)
trim_right s ch = elim (find_last (is_not ch) s) [
  | none ↦ substr_len s 0 0
  | some off ↦ substr_len s 0 (off + 1)
]

abbrev or_end : List ℕ → Option ℕ → ℕ
or_end s none = length s - 1
or_end s (some off) = off

unfoldable pub trim : List ℕ → ℕ → Option (List ℕ)
trim s ch = elim (find_first (is_not ch) s) [
  | none ↦ some []
  | some head ↦ substr_len s head (or_end s (find_last (is_not ch) s) - head + 1)
]

-- The two texts and the result; `none` where `substr` throws.
unfoldable pub split : List ℕ → ℕ → Option (List ℕ × List ℕ × Bool)
split s ch = elim (find_first (is ch) s) [
  | none ↦ some (s, [], false)
  | some pos ↦
      let tail = substr s (pos + 1) in
      elim (substr_len s 0 pos) [
        | none ↦ none
        | some str1 ↦ elim tail [ none ↦ none | some str2 ↦ some (str1, str2, true) ]
      ]
]

-- The part of a text behind the last `c`.
abbrev behind_last : List ℕ → ℕ → Option (List ℕ)
behind_last s c = elim (find_last (is c) s) [ none ↦ some s | some pos ↦ substr s (pos + 1) ]

unfoldable pub path2file : List ℕ → Option (List ℕ)
path2file path = elim (behind_last path backslash) [
  | none ↦ none
  | some file ↦ behind_last file slash
]

-- `std::replace (…, '\\', '/')`.
unfoldable pub unify : List ℕ → List ℕ
unify = map (λ c. if c == backslash then slash else c)

-- `none` where the last character of an empty text is read.
unfoldable pub path_to_unix : List ℕ → Option (List ℕ)
unfolding unify
path_to_unix path =
    let s = unify path in
    if length s == 0
    then none
    else some (if get_or s (length s - 1) 0 == slash then s else s ++ slash ∷ [])

abbrev ended : List ℕ → List ℕ
ended path = if get_or path (length path - 1) 0 == slash then path else path ++ slash ∷ []

-- The path and the file name.
unfoldable pub path_split : List ℕ → Option (List ℕ × List ℕ)
unfolding unify
path_split fullpath =
    let s = unify fullpath in
    elim (find_last (is slash) s) [
      | none ↦ some ([], s)
      | some i ↦
          let front = substr_len s 0 (i + 1) in
          elim (substr_len s (i + 1) (length s - i - 1)) [
            | none ↦ none
            | some file ↦ elim front [ none ↦ none | some path ↦ some (ended path, file) ]
          ]
    ]

-- `std::string (buf)`: the characters up to the first 0.
abbrev pub until_zero : List ℕ → List ℕ
until_zero [] = []
until_zero (x ∷ xs) = let rest = until_zero xs in if x == 0 then [] else x ∷ rest

-- `format`, over what _vsnprintf makes of the arguments; `none` where `buf` is left without an end.
unfoldable pub format : (output : List ℕ) → Option (List ℕ)
format output = if ltb (length output) 1024 then some (until_zero output) else none
