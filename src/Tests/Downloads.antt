-- ===== src/Tests/Downloads.antt =====
-- The files that come out of a container.
use cincan_command.Prelude.{
  contains, ◌+◌, codes, starts_with, keep, true, false, not, some, none, List, [], ◌∷◌, ◌≡◌, refl,
  nat_eq, list_eq, bool_eq, ◌==◌, if◌then◌else◌, sort, text_le, any, length, ◌≤◌, All, arith, Text,
  Bool-cases, inl, inr,
}
use cincan_command.Path.{path_eq, parse, as_posix, join_path}
use cincan_command.Tar.Filter.{filter_files}
use cincan_command.Tar.Config.{ignore_filters, config_lines}
use cincan_command.Matcher.{filter_download_files}
use cincan_command.Tar.Modified.{check_if_modified, get_stat}
use cincan_command.Tar.Download.{Bytes, Member, at_download, Download, step, download_file_set}
use cincan_command.Tar.Download
use cincan_command.Tar.Download.Logged.{IsAllowed}
use cincan_command.Tar.Download.Met.{Counts, full_name, download_file_set-files}
use cincan_command.Tar.Results.WorkDir.{work_dir_of, download_files-no_work_dir}
use cincan_command.Tar.Results.Met.{download_files-count}
use cincan_command.Tar.Results.{Container, candidates, download_files}
use cincan_command.Tar.Results.Safe.{download_files-IsAllowed}
use cincan_command.Tar.Download.Returns.{IsFile}
use cincan_command.Tar.Results.Returns.{download_files-returns}
use cincan_command.Tests.Transfers.{digest, before_download}

abbrev box : Container
box = record {
  diff = some (codes "/w/n") ∷ none ∷ some (codes "/w") ∷ [];
  archive = λ path.
      if path == codes "/w/"
      then some (
          record {
            name = parse (codes "w/n");
            size = 2;
            mtime = 1;
            mode = 420;
            content = some (8 ∷ 9 ∷ []);
          }
          ∷ [])
      else none;
  ignore_file = none;
}

abbrev after_download : Download
unfolding download_files
after_download =
    elim (download_files digest box (codes "/w/") [] true [] false [] true (λ k. none)) [
      | none ↦ before_download
      | some d ↦ d
    ]

download_test :
    after_download.logged
    ≡ record { path = codes "n"; digest = 8 ∷ 9 ∷ []; timestamp = at_download } ∷ []
unfolding nat_eq list_eq bool_eq parse as_posix download_files text_le sort
    Download.download_file_set filter_files ignore_filters config_lines filter_download_files
    check_if_modified get_stat
download_test = refl

download_runs :
    download_files digest box (codes "/w/") [] true [] false [] true (λ k. none)
    ≡ some after_download
unfolding nat_eq list_eq bool_eq parse as_posix download_files text_le sort
    Download.download_file_set filter_files ignore_filters config_lines filter_download_files
    check_if_modified get_stat
download_runs = refl

download_files-IsAllowed_example :
    IsAllowed digest (codes "/w/") (candidates box [] false (codes "/w/")) after_download
    × (after_download.host ≡ (λ k. none))
download_files-IsAllowed_example =
    download_files-IsAllowed digest box (codes "/w/") [] true [] false [] true (λ k. none)
      after_download download_runs

abbrev in_archive : List Member
in_archive =
    record {
      name = parse (codes "w/n");
      size = 2;
      mtime = 1;
      mode = 420;
      content = some (8 ∷ 9 ∷ []);
    }
    ∷ []

abbrev after_archive : Download
unfolding download_file_set
after_archive =
    elim (download_file_set digest (codes "/w/") [] true (parse (codes "/w")) in_archive
      before_download) [ none ↦ before_download | some d ↦ d ]

download_file_set-files_example :
    (after_archive.files
      ≡ keep
          (λ f. not (any (λ m. full_name (parse (codes "/w")) m == f) in_archive))
          before_download.files)
    × Counts before_download after_archive
unfolding nat_eq list_eq parse as_posix download_file_set check_if_modified get_stat
download_file_set-files_example =
    download_file_set-files digest (codes "/w/") [] true (parse (codes "/w")) in_archive
      before_download after_archive refl

after_archive_test : after_archive.files ≡ codes "/w/d/a" ∷ []
unfolding nat_eq list_eq parse as_posix download_file_set check_if_modified get_stat
after_archive_test = refl

download_files-count_example :
    length after_download.logged + length after_download.files
    ≤ length (candidates box [] false (codes "/w/"))
download_files-count_example =
    download_files-count digest box (codes "/w/") [] true [] false [] true (λ k. none)
      after_download download_runs

download_files-no_work_dir_example :
    download_files digest box (work_dir_of none) [] true [] false [] true (λ k. none)
    ≡ some (record { files = []; host = λ k. none; written = []; logged = [] })
unfolding starts_with nat_eq list_eq
download_files-no_work_dir_example =
    download_files-no_work_dir digest box [] true [] false [] true (λ k. none) (refl, (refl, tt))

-- The archive of a directory begins with the directory itself.
abbrev with_directory : List Member
with_directory =
    record { name = parse (codes "w"); size = 4096; mtime = 1; mode = 493; content = none }
    ∷ in_archive

abbrev dir_box : Container
dir_box = record box { archive = λ path. if path == codes "/w/" then some with_directory else none }

false-not-true : false ≡ true → ⊥
false-not-true h = absurd (ground (arith, h))

dir_box-IsFile :
    (path : Text) (ms : List Member)
    → dir_box.archive path ≡ some ms
    → All
        (λ m.
          contains (candidates dir_box [] false (codes "/w/")) (full_name (parse path) m) ≡ true
          → IsFile m)
        ms
unfolding nat_eq list_eq bool_eq parse as_posix candidates text_le sort filter_files ignore_filters
    config_lines filter_download_files join_path
dir_box-IsFile path ms e = elim (Bool-cases (path == codes "/w/")) [
  | inr n ↦ let e' = rw n at e in cc e'
  | inl n ↦
      let e' = rw n at e in
      let same : with_directory ≡ ms = ground arith in
      let there : path ≡ codes "/w/" = ground arith in
      rw (← same, there) ((λ h. absurd (false-not-true h)), ((λ h. (8 ∷ 9 ∷ [], refl)), tt))
]

download_files-returns_example :
    (d : Download) × (download_files digest dir_box
        (codes "/w/")
        []
        true
        []
        false
        []
        true
        (λ k. none)
      ≡ some d)
download_files-returns_example =
    download_files-returns digest (codes "/w/") [] dir_box [] false [] true (λ k. none)
      dir_box-IsFile
