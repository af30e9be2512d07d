-- ===== src/Text/Tests.antt =====
-- Short texts.
use libiocp.Base.{ℕ, ◌≡◌, refl, List, [], ◌∷◌, some}
use libiocp.Text.{
  trim, find_first, slash, backslash, path2file, path_split, unify, path_to_unix, find_last,
}
use libiocp.Text.Paths.{Parts, path2file-path_split}

-- "  ab "
trim_runs : trim (32 ∷ 32 ∷ 97 ∷ 98 ∷ 32 ∷ []) 32 ≡ some (97 ∷ 98 ∷ [])
unfolding trim find_first find_last
trim_runs = refl

-- "a\b/c"
abbrev path : List ℕ
path = 97 ∷ backslash ∷ 98 ∷ slash ∷ 99 ∷ []

path2file-path_split_example :
    (dir : List ℕ) × (file : List ℕ) × (path_split path ≡ some (dir, file))
    × (path2file path ≡ some file)
    × Parts (unify path) dir file
path2file-path_split_example = path2file-path_split path

path_split-joined_example : path_split path ≡ some (97 ∷ slash ∷ 98 ∷ slash ∷ [], 99 ∷ [])
unfolding path_split find_last
path_split-joined_example = refl

path_to_unix_runs : path_to_unix path ≡ some (97 ∷ slash ∷ 98 ∷ slash ∷ 99 ∷ slash ∷ [])
unfolding path_to_unix
path_to_unix_runs = refl
