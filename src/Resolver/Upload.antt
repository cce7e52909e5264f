-- ===== src/Resolver/Upload.antt =====
-- `detect_upload_files` and `resolve_upload_files` of cincan/file_tool.py: the files that are
-- uploaded, with their names in the archive.
pub mod Names
use cincan_command.Prelude.{
  ℕ, zero, suc, Text, codes, contains, length, sort, text_le, keep, Bool, true, false, not, ◌&&◌,
  ◌||◌, Option, none, some, List, [], ◌∷◌, ◌++◌, ◌==◌, nat_eq, list_eq, if◌then◌else◌,
}
use cincan_command.Path.{PurePath, path_eq, parent}
use cincan_command.Tar.Download.{◌>>=◌}
use cincan_command.Resolver.{Host, is_some, archive_name_for}

-- `p <= q`, by the root and the parts
parts_le : List Text → List Text → Bool
unfolding text_le
parts_le [] ys = true
parts_le (x ∷ xs) [] = false
parts_le (x ∷ xs) (y ∷ ys) = let rest = parts_le xs ys in if x == y then rest else text_le x y

unfoldable pub path_le : PurePath → PurePath → Bool
unfolding parts_le
path_le p q =
    parts_le (if p.root == [] then p.parts else p.root ∷ p.parts)
      (if q.root == [] then q.parts else q.root ∷ q.parts)

-- `p.parents`, from the nearest one up to "." or the root
all_parents : ℕ → PurePath → List PurePath
all_parents zero p = []
all_parents (suc n) p = parent p ∷ all_parents n (parent p)

with_parents : List PurePath → List PurePath
unfolding all_parents
with_parents [] = []
with_parents (p ∷ ps) = p ∷ all_parents (length p.parts) p ++ with_parents ps

-- `upload_files[host_file] = name`
set_name : PurePath → Text → List (PurePath × Text) → List (PurePath × Text)
set_name f name [] = (f, name) ∷ []
set_name f name ((g, n) ∷ rest) =
    let later = (g, n) ∷ set_name f name rest in if f == g then (g, name) ∷ rest else later

module _ (h : Host) (output_dirs : List PurePath) where
  open h use {look}

  -- `while not p.exists()`: the search ends at "." or the root. It does not end if that is not
  -- there, for which `none` stands.
  nearest : ℕ → PurePath → Option PurePath
  nearest zero p = if is_some (look p) then some p else none
  nearest (suc fuel) p =
      let more = nearest fuel (parent p) in if is_some (look p) then some p else more

  -- The directories that lead to files which are not there
  lead_files : List PurePath → List PurePath → Option (List PurePath)
  lead_files all_dirs [] = some []
  lead_files all_dirs (f ∷ fs) = do
    p ← nearest (length (parent f).parts) (parent f)
    rest ← lead_files all_dirs fs
    some (if contains all_dirs p then rest else p ∷ rest)

  -- `detect_upload_files` with the resolver's own files
  unfoldable pub detect_upload_files : List PurePath → Option (List PurePath)
  unfolding path_le nearest lead_files with_parents
  detect_upload_files host_files =
      let it_files = sort path_le host_files in
      let res = keep (λ f. is_some (look f) || contains output_dirs f) it_files in
      do
        leads ← lead_files (with_parents res) (keep (λ f. not (is_some (look f))) it_files)
        some (res ++ leads)

  unfoldable pub name_files : List PurePath → List (PurePath × Text) → List (PurePath × Text)
  unfolding archive_name_for set_name
  name_files [] upload_files = upload_files
  name_files (f ∷ fs) upload_files =
      let (host_file, arc_name) = archive_name_for h f in
      name_files fs (set_name host_file arc_name upload_files)

  -- `resolve_upload_files`, into a dictionary that is empty
  unfoldable pub resolve_upload_files : List PurePath → Option (List (PurePath × Text))
  unfolding detect_upload_files name_files
  resolve_upload_files host_files = do
    files ← detect_upload_files host_files
    some (name_files files [])
