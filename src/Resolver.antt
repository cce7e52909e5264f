-- ===== src/Resolver.antt =====
-- `FileResolver` of cincan/file_tool.py: the files of the host that a command line names.
pub mod Upload
pub mod Listed
use cincan_command.Prelude.{
  ℕ, zero, suc, ◌-◌, Text, codes, contains, starts_with, position, length, drop, all, keep, Bool,
  true, false, not, ◌&&◌, ◌||◌, Option, none, some, List, [], ◌∷◌, ◌++◌, ◌==◌, nat_eq, list_eq,
  if◌then◌else◌,
}
use cincan_command.Path.{PurePath, path_eq, parse, as_posix, parent, is_absolute}
use cincan_command.Matcher.{FileMatcher, filter_upload_files}
use cincan_command.Shlex.{split_command}
use cincan_command.Tar.Download.{◌>>=◌}

-- The files of the host, without cycles of links
mutual
  pub data Node : Type 0 where
    file : Node
    directory : Nodes → Node

  -- the files that `iterdir` gives, by their names
  pub data Nodes : Type 0 where
    end : Nodes
    entry : Text → Node → Nodes → Nodes

pub record Host : Type 0 where
  pub look : PurePath → Option Node
  -- `path.resolve()`
  pub resolve : PurePath → PurePath

abbrev pub is_some : Option Node → Bool
is_some none = false
is_some (some _) = true

abbrev is_directory : Option Node → Bool
is_directory (some (directory _)) = true
is_directory _ = false

abbrev pub nodes_of : Option Node → Nodes
nodes_of (some (directory ns)) = ns
nodes_of _ = end

pub record Resolver : Type 0 where
  pub host_files : List PurePath
  pub already_listed : List PurePath
  pub command_args : List Text

-- `'..' in v`
abbrev has_dots : Text → Bool
has_dots v = elim (position v (codes "..")) [ none ↦ false | some _ ↦ true ]

unfoldable pub use_absolute_path : PurePath → Bool
unfolding position as_posix
use_absolute_path p = is_absolute p || has_dots (as_posix p)

abbrev pub strip_slash : Text → Text
strip_slash v = if starts_with v (codes "/") then drop 1 v else v

-- A file is listed once.
unfoldable pub list_file : PurePath → Resolver → Resolver
list_file f r =
    if contains r.already_listed f
    then r
    else record r { host_files = r.host_files ++ f ∷ []; already_listed = f ∷ r.already_listed }

abbrev child : PurePath → Text → PurePath
child p name = record p { parts = p.parts ++ name ∷ [] }

-- `__include_sub_dirs`
unfoldable mutual
  unfolding list_file

  pub include_sub_dirs : PurePath → Nodes → Resolver → Resolver
  include_sub_dirs p end r = r
  include_sub_dirs p (entry name node rest) r =
      include_sub_dirs p rest (include_below (child p name) node (list_file (child p name) r))

  pub include_below : PurePath → Node → Resolver → Resolver
  include_below p file r = r
  include_below p (directory ns) r = include_sub_dirs p ns r

slash_run : Text → Text
slash_run [] = []
slash_run (c ∷ v) = let rest = slash_run v in if all (λ d. d == b'/') (c ∷ v) then c ∷ v else rest

-- The slashes at the end, the first character apart, which a path would lose
trailing_slashes : Text → Text
unfolding slash_run
trailing_slashes [] = []
trailing_slashes (c ∷ v) = slash_run v

replace_from : Text → Text → ℕ → Text → Text
replace_from old new skip [] = []
replace_from old new (suc skip) (c ∷ v) = replace_from old new skip v
replace_from old new zero (c ∷ v) =
    let rest = replace_from old new (length old - 1) v in
    let next = replace_from old new 0 v in if starts_with (c ∷ v) old then new ++ rest else c ∷ next

-- `v.replace(old, new)`, where `old` is not empty
unfoldable pub replace : Text → Text → Text → Text
unfolding replace_from starts_with
replace v old new = replace_from old new 0 v

-- `__archive_name_for`
unfoldable pub archive_name_for : Host → PurePath → PurePath × Text
unfolding use_absolute_path as_posix starts_with
archive_name_for h p =
    if use_absolute_path p
    then (h.resolve p, strip_slash (as_posix (h.resolve p)))
    else (p, as_posix p)

module _ (h : Host) (output_dirs : List PurePath) where
  open h use {look}

  -- Whether a parent directory is there that is not listed, up to "."; the path is relative.
  parent_found : ℕ → PurePath → List PurePath → Bool
  parent_found zero p listed = false
  parent_found (suc fuel) p listed =
      let more = parent_found fuel (parent p) listed in
      if as_posix p == codes "."
      then false
      else if is_directory (look p) && not (contains listed p)
      then true
      else more

  -- The host file and the directory's content are listed.
  list_existing : PurePath → PurePath → Resolver → Resolver
  list_existing p h_file r =
      let r' = list_file h_file r in
      if is_directory (look p) && not (contains output_dirs p)
      then include_sub_dirs p (nodes_of (look p)) r'
      else r'

  -- The test whether a file or a directory for output is meant
  unfoldable pub is_file_argument : Text → Bool → Resolver → Bool
  unfolding parent_found parse as_posix position
  is_file_argument path parent_check r =
      let p = parse path in
      let there = is_some (look p) && not (all (λ c. c == b'/') path) in
      if there
      then true
      else if not parent_check && not (contains path b' ')
      then false
      else if is_absolute p || has_dots (as_posix p)
      then false
      else parent_found (length (parent p).parts) (parent p) r.host_files

  -- `__file_exists`
  unfoldable pub file_exists : Text → Bool → Resolver → Option Text × Resolver
  unfolding is_file_argument list_existing archive_name_for trailing_slashes
  file_exists path parent_check r =
      let p = parse path in
      let (h_file, a_name) = archive_name_for h p in
      if is_file_argument path parent_check r
      then (some (a_name ++ trailing_slashes path), list_existing p h_file r)
      else (none, r)

  -- The parts of an argument that are files, with their names in the archive
  unfoldable pub modified_paths : List Text → Resolver → List (Text × Text) × Resolver
  unfolding file_exists
  modified_paths [] r = ([], r)
  modified_paths (part ∷ parts) r =
      let (a_name, r₁) = file_exists part true r in
      let (rest, r₂) = modified_paths parts r₁ in
      (elim a_name [ none ↦ rest | some a ↦ if a == [] then rest else (part, a) ∷ rest ], r₂)

  replace_all : List (Text × Text) → Text → Text
  replace_all [] arg = arg
  replace_all ((part, name) ∷ rest) arg = replace_all rest (replace arg part name)

  add_argument : Text → Resolver → Resolver
  add_argument arg r = record r { command_args = r.command_args ++ arg ∷ [] }

  split_argument : Text → Resolver → Option (List Text) → Option Resolver
  split_argument arg r none = none
  split_argument arg r (some parts) =
      let (paths, r') = modified_paths parts r in some (add_argument (replace_all paths arg) r')

  -- What becomes of an argument, whose file name is given if it is one as a whole
  whole_or_split : Text → Option Text → Resolver → Option Resolver
  whole_or_split arg none r = split_argument arg r (split_command arg)
  whole_or_split arg (some a) r =
      if a == [] then split_argument arg r (split_command arg) else some (add_argument a r)

  -- One round of the loop of `__analyze`
  unfoldable pub analyze_argument : Text → Resolver → Option Resolver
  unfolding file_exists modified_paths replace_all add_argument split_argument whole_or_split
      replace split_command
  analyze_argument arg r =
      let (a_name, r') = file_exists arg false r in whole_or_split arg a_name r'

  -- `__analyze`, with `none` for the `ValueError` of a part that cannot be split
  unfoldable pub analyze : List Text → Resolver → Option Resolver
  unfolding analyze_argument
  analyze [] r = some r
  analyze (arg ∷ args) r = do r' ← analyze_argument arg r; analyze args r'

apply_filters : List FileMatcher → List PurePath → List PurePath
apply_filters [] fs = fs
apply_filters (m ∷ ms) fs = apply_filters ms (filter_upload_files m fs)

abbrev pub parse_all : List Text → List PurePath
parse_all [] = []
parse_all (v ∷ vs) = parse v ∷ parse_all vs

filtered : List FileMatcher → Option Resolver → Option Resolver
filtered ms none = none
filtered ms (some r) = some (record r { host_files = apply_filters ms r.host_files })

-- `FileResolver(args, directory, output_dirs, do_resolve, input_filters)`
unfoldable pub file_resolver :
    Host → List Text → List Text → Bool → List FileMatcher → Option Resolver
unfolding analyze filtered apply_filters filter_upload_files parse
file_resolver h args output_dirs do_resolve input_filters =
    let dirs = parse_all output_dirs in
    if do_resolve
    then filtered input_filters (
        analyze h dirs args
          (record { host_files = dirs; already_listed = dirs; command_args = [] }))
    else some (record { host_files = dirs; already_listed = dirs; command_args = args })
