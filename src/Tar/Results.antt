-- ===== src/Tar/Results.antt =====
-- `download_files` of cincan/tar_tool.py: which paths of the container are asked for, in which order.
pub mod Rounds
pub mod Safe
pub mod Met
pub mod WorkDir
pub mod Returns
pub mod OnDisk
use cincan_command.Prelude.{
  ℕ, Text, codes, sort, text_le, Bool, true, false, not, ◌&&◌, ◌||◌, Option, none, some, List, [],
  ◌∷◌, ◌++◌, ◌==◌, nat_eq, list_eq, if◌then◌else◌,
}
use cincan_command.Path.{PurePath, parse, as_posix, join_path}
use cincan_command.Matcher.{FileMatcher}
use cincan_command.Tar.Config.{config_lines}
use cincan_command.Tar.Filter.{filter_files}
use cincan_command.Tar.Modified.{UploadStats}
use cincan_command.Tar.Download.{Bytes, Host, Member, Download, download_file_set, ◌>>=◌}

-- What the container tells
pub record Container : Type 0 where
  -- `container.diff()`: changes, of which some may have no path
  pub diff : List (Option Text)
  -- the members of `get_archive`, with `none` for `NotFound`
  pub archive : Text → Option (List Member)
  -- the content of the ignore file
  pub ignore_file : Option Text

abbrev diff_paths : List (Option Text) → List Text
diff_paths [] = []
diff_paths (none ∷ rest) = diff_paths rest
diff_paths (some path ∷ rest) = path ∷ diff_paths rest

-- The files that have changed and pass the filters, deepest paths first where one leads to another
unfoldable pub candidates : Container → List FileMatcher → Bool → Text → List Text
candidates c filters no_defaults work_dir =
    filter_files (sort (λ a b. text_le b a) (diff_paths c.diff)) filters no_defaults
      (config_lines c.ignore_file true) work_dir

module _ (digest : Bytes → Text) (c : Container) (work_dir : Text) (stats : UploadStats)
    (to_tar : Bool) where
  fetched : Text → Option (List Member) → Download → Option Download
  fetched file_path none d = some d
  fetched file_path (some ms) d =
      download_file_set digest work_dir stats to_tar (parse file_path) ms d

  -- `__download_file_set(file_path, …)`
  unfoldable pub download_at : Text → Download → Option Download
  unfolding fetched parse
  download_at file_path d = fetched file_path (c.archive file_path) d

  -- The explicit files or directories, as long as there is something to do
  unfoldable pub download_explicit : List Text → Download → Option Download
  unfolding download_at parse as_posix join_path
  download_explicit [] d = some d
  download_explicit (fp ∷ fps) d = do
    d' ←
        (if d.files == []
          then some d
          else download_at (as_posix (join_path (parse work_dir) (parse fp))) d)
    download_explicit fps d'

  -- The files that are left, each for itself
  unfoldable pub download_each : List Text → Download → Option Download
  unfolding download_at
  download_each [] d = some d
  download_each (f ∷ fs) d = do d' ← download_at f d; download_each fs d'

  -- The three rounds over a set of files
  unfoldable pub download_rounds : List Text → Bool → Download → Option Download
  unfolding download_explicit download_each
  download_rounds file_paths implicit_output d = do
    d₁ ← (if implicit_output && not (work_dir == codes "/") then download_at work_dir d else some d)
    d₂ ← download_explicit file_paths d₁
    (if implicit_output then download_each (sort text_le d₂.files) d₂ else some d₂)

  -- `download_files`, from the host's working directory
  unfoldable pub download_files :
      List FileMatcher → Bool → List Text → Bool → Host → Option Download
  unfolding candidates download_rounds
  download_files filters no_defaults file_paths implicit_output host =
      download_rounds file_paths implicit_output (record {
        files = candidates c filters no_defaults work_dir;
        host = host;
        written = [];
        logged = [];
      })
