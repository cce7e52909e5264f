-- ===== src/Tar/Results/WorkDir.antt =====
-- The working directory that `TarTool` of cincan/tar_tool.py takes from the image.
use cincan_command.Prelude.{
  Text, codes, ends_with, starts_with, contains, contains-sort, All, Bool, true, false, Bool-cases,
  Option, none, some, List, [], ◌∷◌, ◌++◌, ◌==◌, nat_eq, list_eq, if◌then◌else◌, ◌≡◌, inl, inr,
  refl, arith, sort, text_le,
}
use cincan_command.Path.{PurePath, parse}
use cincan_command.Matcher.{FileMatcher}
use cincan_command.Tar.Config.{config_lines}
use cincan_command.Tar.Filter.Laws.{filter_files_sound}
use cincan_command.Tar.Modified.{UploadStats}
use cincan_command.Tar.Download.{Bytes, Host, Member, Download, step, download_file_set}
use cincan_command.Tar.Results.{Container, diff_paths, candidates, download_files}
use cincan_command.Tar.Results.Rounds.{IsEffect, download_rounds-Shows}

-- `attrs['Config'].get('WorkingDir', '.') or '/'`, for a key that is there or not
unfoldable pub config_dir : Option Text → Text
config_dir none = codes "."
config_dir (some []) = codes "/"
config_dir (some (c ∷ v)) = c ∷ v

-- `self.work_dir`
unfoldable pub work_dir_of : Option Text → Text
unfolding config_dir ends_with
work_dir_of config = let w = config_dir config in if ends_with w b'/' then w else w ++ codes "/"

abbrev IsAbsolute : Text → Type 0
IsAbsolute path = starts_with path (codes "/") ≡ true

absolute-not-dot : (v : Text) → IsAbsolute v → starts_with v (work_dir_of none) ≡ false
unfolding starts_with work_dir_of nat_eq list_eq
absolute-not-dot [] h = cc
absolute-not-dot (c ∷ v) h = ground (arith, h)

All-contains : (xs : List Text) (x : Text) → All IsAbsolute xs → contains xs x ≡ true → IsAbsolute x
All-contains [] x a h = cc
All-contains (y ∷ xs) x a h = elim (Bool-cases (x == y)) [
  | inl e ↦ let same : y ≡ x = ground arith in rw (← same) a.0
  | inr e ↦ All-contains xs x a.1 (ground (arith, h))
]

nothing-contained :
    (xs : List Text) → ((x : Text) → contains xs x ≡ true → contains xs x ≡ false) → xs ≡ []
nothing-contained [] h = refl
nothing-contained (x ∷ xs) h =
    let here : contains (x ∷ xs) x ≡ true = ground arith in cc (here, h x here)

candidates-nil :
    (c : Container) (filters : List FileMatcher) (no_defaults : Bool)
    → All IsAbsolute (diff_paths c.diff)
    → candidates c filters no_defaults (work_dir_of none) ≡ []
unfolding candidates
candidates-nil c filters no_defaults a = nothing-contained _ (λ x h.
    let (inside, below, _) =
      filter_files_sound (sort (λ a b. text_le b a) (diff_paths c.diff)) filters no_defaults
        (config_lines c.ignore_file true) (work_dir_of none) x h in
    let listed : contains (diff_paths c.diff) x ≡ true =
      ground (arith, inside, contains-sort (λ a b. text_le b a) x (diff_paths c.diff)) in
    ground (arith, below, absolute-not-dot x (All-contains (diff_paths c.diff) x a listed)))

-- An action does nothing to a state without files to meet.
abbrev Idle : Download → Option Download → Type 0
Idle d o = d.files ≡ [] → o ≡ some d

Idle-IsEffect : IsEffect Idle
Idle-IsEffect = record { of_nothing = λ d n. refl; of_both = λ d o g k kg n. rw (k n) (kg d n) }

download_file_set-Idle :
    (digest : Bytes → Text) (work_dir : Text) (stats : UploadStats) (to_tar : Bool)
    (base_path : PurePath) (ms : List Member) (d : Download)
    → Idle d (download_file_set digest work_dir stats to_tar base_path ms d)
unfolding download_file_set step
download_file_set-Idle digest work_dir stats to_tar base_path [] d n = refl
download_file_set-Idle digest work_dir stats to_tar base_path (m ∷ ms) d n =
    let e : step digest work_dir stats to_tar base_path m d ≡ some d = rw n refl in
    rw e (download_file_set-Idle digest work_dir stats to_tar base_path ms d n)

-- If the image's configuration has no working directory, a download returns and takes nothing: it
-- changes nothing on the host, writes nothing into a tar file and logs nothing, whatever has changed
-- in the container, whose paths begin with a slash.
pub download_files-no_work_dir :
    (digest : Bytes → Text) (c : Container) (stats : UploadStats) (to_tar : Bool)
    (filters : List FileMatcher) (no_defaults : Bool) (file_paths : List Text)
    (implicit_output : Bool) (host : Host)
    → All IsAbsolute (diff_paths c.diff)
    → download_files digest c
        (work_dir_of none)
        stats
        to_tar
        filters
        no_defaults
        file_paths
        implicit_output
        host
      ≡ some (record { files = []; host = host; written = []; logged = [] })
unfolding download_files
download_files-no_work_dir digest c stats to_tar filters no_defaults file_paths implicit_output host
      a =
    rw (candidates-nil c filters no_defaults a) (
      download_rounds-Shows Idle Idle-IsEffect digest c (work_dir_of none) stats to_tar
        (λ path ms e d.
          download_file_set-Idle digest (work_dir_of none) stats to_tar (parse path) ms d)
        file_paths implicit_output _ refl)
