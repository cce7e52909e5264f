-- ===== src/Matcher.antt =====
-- `FileMatcher` of cincan/file_tool.py: patterns with `*` for any run of characters.
pub mod Glob
pub mod Sound
pub mod Complete
use cincan_command.Prelude.{
  ℕ, ◌+◌, Text, codes, starts_with, find, split, length, last, keep, contains, Bool, true, false,
  not, ◌&&◌, ◌||◌, Option, none, some, List, [], ◌∷◌, ◌==◌, nat_eq, list_eq, bool_eq, if◌then◌else◌,
}
use cincan_command.Path.{PurePath, parse as parse_path, as_posix, relative_to}

pub record FileMatcher : Type 0 where
  pub match_string : Text
  pub exact : Bool
  pub absolute_path : Bool
  pub include : Bool

-- `FileMatcher(match_string, include)`
unfoldable pub file_matcher : Text → Bool → FileMatcher
unfolding starts_with
file_matcher match_string include = record {
  match_string = match_string;
  exact = not (contains match_string b'*');
  absolute_path = starts_with match_string (codes "/");
  include = include;
}

parse_one : Text → FileMatcher
parse_one [] = file_matcher [] true
parse_one (c ∷ m) = if c == b'^' then file_matcher m false else file_matcher (c ∷ m) true

-- `FileMatcher.parse(match_strings)`
unfoldable pub parse : List Text → List FileMatcher
unfolding parse_one
parse [] = []
parse (m ∷ rest) = parse_one m ∷ parse rest

-- The loop of `__match` over `split[i:]`, from the offset `off`. `none` is its `return False`.
unfoldable pub scan : Text → List Text → ℕ → Option ℕ
unfolding find
scan value [] off = some off
scan value ([] ∷ rest) off = scan value rest off
scan value ((c ∷ s) ∷ rest) off = elim (find value (c ∷ s) off) [
  | none ↦ none
  | some at ↦ scan value rest (at + length (c ∷ s))
]

-- The last test of `__match`
ends_right : Text → Option ℕ → Text → Bool
ends_right tail none value = false
ends_right tail (some off) value = not (not (tail == []) && not (off == length value))

-- `__match` behind its exact case, on the pieces of the pattern: a first piece is a prefix.
unfoldable pub match_pieces : Text → List Text → Text → Bool
unfolding scan ends_right starts_with
match_pieces s rest value =
    ends_right (last s rest) (if starts_with value s then scan value rest (length s) else none)
      value

-- `__match`
unfoldable pub matches : FileMatcher → Text → Bool
unfolding match_pieces split
matches m value =
    if m.exact
    then m.match_string == value
    else (let (s, rest) = split b'*' m.match_string in match_pieces s rest value)

-- `filter_upload_files`
unfoldable pub filter_upload_files : FileMatcher → List PurePath → List PurePath
unfolding matches as_posix
filter_upload_files m = keep (λ f. matches m (as_posix f) == m.include)

-- The test on one file in `filter_download_files`
unfoldable pub keeps_download : FileMatcher → Text → Text → Bool
unfolding matches parse_path as_posix relative_to
keeps_download m work_dir file =
    if m.absolute_path
    then matches m file == m.include
    else elim (relative_to (parse_path file) (parse_path work_dir)) [
      | none ↦ not m.include
      | some rel_file ↦ matches m (as_posix rel_file) == m.include
    ]

-- `filter_download_files`
unfoldable pub filter_download_files : FileMatcher → List Text → Text → List Text
unfolding keeps_download
filter_download_files m files work_dir = keep (keeps_download m work_dir) files
