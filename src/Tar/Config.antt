-- ===== src/Tar/Config.antt =====
-- `__read_config_file` of cincan/tar_tool.py, on the content of the file, and the filters that
-- `__filter_files` makes of its lines.
use cincan_command.Prelude.{
  ℕ, Text, codes, starts_with, ends_with, contains, keep, Bool, false, not, ◌&&◌, ◌||◌, Option,
  none, some, List, [], ◌∷◌, ◌++◌, ◌==◌, nat_eq, list_eq, leb, if◌then◌else◌,
}
use cincan_command.Matcher.{FileMatcher, file_matcher}

push : ℕ → List Text → List Text
push c [] = (c ∷ []) ∷ []
push c (s ∷ rest) = (c ∷ s) ∷ rest

-- `bytes.splitlines()`: a line ends at "\n", "\r" or "\r\n", and the last one need not.
unfoldable pub split_lines : Text → List Text
unfolding push
split_lines [] = []
split_lines (c ∷ []) = if c == b'\n' || c == 13 then [] ∷ [] else (c ∷ []) ∷ []
split_lines (c ∷ d ∷ v) =
    let rest = split_lines (d ∷ v) in
    let behind = split_lines v in
    if c == b'\n'
    then [] ∷ rest
    else if c == 13
    then [] ∷ (if d == b'\n' then behind else rest)
    else push c rest

-- The characters that `str.lstrip()` takes away.
is_space : ℕ → Bool
is_space c =
    leb 9 c && leb c 13
    || leb 28 c && leb c 32
    || contains (0x85 ∷ 0xa0 ∷ 0x1680 ∷ 0x2028 ∷ 0x2029 ∷ 0x202f ∷ 0x205f ∷ 0x3000 ∷ []) c
    || leb 0x2000 c && leb c 0x200a

unfoldable pub lstrip : Text → Text
unfolding is_space
lstrip [] = []
lstrip (c ∷ v) = let rest = lstrip v in if is_space c then rest else c ∷ v

abbrev is_comment : Text → Bool
is_comment line = starts_with (lstrip line) (codes "#")

-- The lines that `__read_config_file` returns. `none` is a file that the container does not have.
unfoldable pub config_lines : Option Text → Bool → List Text
unfolding split_lines starts_with lstrip
config_lines none skip_comment = []
config_lines (some content) skip_comment =
    keep (λ line. not (line == []))
      (keep (λ line. not (skip_comment && is_comment line)) (split_lines content))

-- The filters for one line of the ignore file
unfoldable pub ignore_line : Text → List FileMatcher
unfolding ends_with
ignore_line file =
    if ends_with file b'/'
    then file_matcher (file ++ codes "*") false ∷ []
    else if not (ends_with file b'*')
    then file_matcher file false ∷ file_matcher (file ++ codes "/*") false ∷ []
    else file_matcher file false ∷ []

unfoldable pub ignore_filters : List Text → List FileMatcher
unfolding ignore_line ends_with file_matcher
ignore_filters [] = []
ignore_filters (file ∷ rest) = ignore_line file ++ ignore_filters rest
