-- ===== src/Tar/Filter.antt =====
-- `__filter_files` of cincan/tar_tool.py: which changed files of the container are downloaded.
pub mod Laws
pub mod Ignored
use cincan_command.Prelude.{
  ℕ, zero, suc, Text, codes, starts_with, contains, length, keep, sort, text_le, Bool, true, false,
  not, ◌&&◌, Option, none, some, List, [], ◌∷◌, ◌++◌, ◌==◌, nat_eq, list_eq, if◌then◌else◌,
}
use cincan_command.Path.{PurePath, parse, as_posix, parent}
use cincan_command.Matcher.{FileMatcher, filter_download_files}
use cincan_command.Tar.Config.{ignore_filters}

-- The comprehension that pops the including filters while it walks over the list: after a `pop`
-- the next filter has moved to the index that has been read, so the walk goes past it.
-- The result is the popped filters and the list that is left.
unfoldable pub pop_includes : List FileMatcher → List FileMatcher × List FileMatcher
pop_includes [] = ([], [])
pop_includes (f ∷ []) = if f.include then (f ∷ [], []) else ([], f ∷ [])
pop_includes (f ∷ g ∷ rest) =
    let (popped, left) = pop_includes rest in
    let (popped', left') = pop_includes (g ∷ rest) in
    if f.include then (f ∷ popped, g ∷ left) else (popped', f ∷ left')

-- The loop over the parents of a candidate, up to the root. A path has at most as many parents as
-- it has parts, which is the fuel given below.
unfoldable pub named_parents : ℕ → PurePath → List Text
named_parents zero p = []
named_parents (suc n) p =
    let rest = named_parents n (parent p) in if p.parts == [] then [] else as_posix p ∷ rest

abbrev pub parents_of : Text → List Text
parents_of c = let p = parent (parse c) in named_parents (length p.parts) p

-- The loop that drops the candidates which are paths to candidates seen before.
unfoldable pub drop_parents : List Text → List Text → List Text
unfolding named_parents
drop_parents [] skip_set = []
drop_parents (c ∷ cs) skip_set =
    let skip = contains skip_set c in
    let rest = drop_parents cs (if skip then skip_set else parents_of c ++ skip_set) in
    if skip then rest else c ∷ rest

-- The candidates up to the comment "filters?"
unfoldable pub base_candidates : List Text → Text → List Text
unfolding drop_parents
base_candidates candidates work_dir =
    sort text_le
      (keep (λ s. starts_with s work_dir) (keep (λ s. not (s == [])) (drop_parents candidates [])))

-- `for filth in filters: candidates = filth.filter_download_files(candidates, self.work_dir)`
unfoldable pub apply_filters : List FileMatcher → List Text → Text → List Text
apply_filters [] candidates work_dir = candidates
apply_filters (m ∷ ms) candidates work_dir =
    apply_filters ms (filter_download_files m candidates work_dir) work_dir

-- Whether the inner loop adds `i_f`. The `else` there belongs to the `if`.
adds : FileMatcher → List FileMatcher → Bool
adds i_f [] = false
adds i_f (o_f ∷ rest) = if i_f.match_string == o_f.match_string then false else true

-- `combined_excluding_filters`. Python's set has no order of its own: see `apply_filters-eq-keep`.
unfoldable pub combined : List FileMatcher → List FileMatcher → List FileMatcher
unfolding adds
combined [] ignored = ignored
combined (o ∷ os) ignored = (o ∷ os) ++ keep (λ i_f. adds i_f (o ∷ os)) ignored

-- Including filters, if there are any, and else the two kinds of excluding ones
merged : List FileMatcher → List FileMatcher → List FileMatcher → List FileMatcher
merged [] left ignored = combined left ignored
merged (p ∷ ps) left ignored = p ∷ ps

-- The filters that are applied, from those of the user and those of the ignore file. The latter
-- are never empty, since the ignore file's own name is among them.
unfoldable pub chosen_filters : List FileMatcher → Bool → List FileMatcher → List FileMatcher
unfolding pop_includes combined merged
chosen_filters [] no_defaults ignored = if no_defaults then [] else ignored
chosen_filters (f ∷ fs) no_defaults ignored =
    let (popped, left) = pop_includes (f ∷ fs) in
    if no_defaults then f ∷ fs else merged popped left ignored

abbrev pub ignore_filename : Text
ignore_filename = codes ".cincanignore"

-- `__filter_files`, with the lines that the container's ignore file has
unfoldable pub filter_files : List Text → List FileMatcher → Bool → List Text → Text → List Text
unfolding base_candidates apply_filters chosen_filters
filter_files candidates filters no_defaults ignore_paths work_dir =
    apply_filters
      (chosen_filters filters no_defaults (ignore_filters (ignore_paths ++ ignore_filename ∷ [])))
      (base_candidates candidates work_dir) work_dir
