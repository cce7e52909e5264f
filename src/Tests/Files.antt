-- ===== src/Tests/Files.antt =====
-- Paths, patterns and the files to download.
use cincan_command.Prelude.{
  Text, codes, contains, starts_with, all, true, false, some, List, [], ◌∷◌, ◌++◌, ◌≡◌, ◌≢◌, ◌↔◌,
  inl, inr, refl, nat_eq, list_eq, bool_eq, arith, sort, text_le, ends_with,
}
use cincan_command.Path
use cincan_command.Path.{PurePath}
use cincan_command.Matcher.{
  FileMatcher, file_matcher, matches, keeps_download, filter_download_files,
}
use cincan_command.Matcher.Glob.{Glob}
use cincan_command.Matcher.Sound.{matches-Glob}
use cincan_command.Matcher.Complete.{tail_of, matches-eq-true, matches-eq-false}
use cincan_command.Tar.Config.{config_lines, ignore_filters}
use cincan_command.Tar.Filter.{filter_files, chosen_filters, ignore_filename}
use cincan_command.Tar.Filter.Laws.{filter_files_sound}
use cincan_command.Tar.Filter.Ignored.{filter_files-ignored}
use cincan_command.Tar.Modified.{
  UploadStat, UploadStats, get_stat, check_if_modified, Same, seconds, check_if_modified_lem,
}

path_test : Path.as_posix (Path.parse (codes "//a/./b//c/")) ≡ codes "//a/b/c"
unfolding nat_eq list_eq Path.as_posix Path.parse
path_test = refl

middle_test : matches (file_matcher (codes "a*b*c") true) (codes "axxbyc") ≡ true
unfolding nat_eq list_eq matches file_matcher
middle_test = refl

first_found_test : matches (file_matcher (codes "*.txt") true) (codes "a.txt.txt") ≡ false
unfolding nat_eq list_eq matches file_matcher
first_found_test = refl

matches-Glob_example : Glob (codes "a*b*c") (codes "axxbyc")
matches-Glob_example = matches-Glob (codes "a*b*c") (codes "axxbyc") true middle_test

below_logs : Glob (codes "logs/*") (codes "logs/x")
below_logs =
    matches-Glob (codes "logs/*") (codes "logs/x") true
      (unfold matches file_matcher nat_eq list_eq in refl)

matches-eq-true_example : matches (file_matcher (codes "logs/*") false) (codes "logs/x") ≡ true
unfolding tail_of nat_eq
matches-eq-true_example =
    matches-eq-true (codes "logs/*") (codes "logs/x") false (inl refl) below_logs

matches-eq-false_example :
    (matches (file_matcher (codes "*.txt") true) (codes ".txta.txt") ≡ false)
    × Glob (codes "*.txt") (codes ".txta.txt")
unfolding nat_eq
matches-eq-false_example = matches-eq-false (codes ".txt") (codes "a") true refl (λ e. ground arith)

config_lines_test :
    config_lines (some (codes "# c\n\nlogs\r\n  # d\n*.tmp")) true
    ≡ codes "logs" ∷ codes "*.tmp" ∷ []
unfolding config_lines nat_eq list_eq
config_lines_test = refl

abbrev changed : List Text
changed =
    codes "/w/logs/x"
    ∷ codes "/w/logs"
    ∷ codes "/w/b.txt"
    ∷ codes "/w/a.txt"
    ∷ codes "/w"
    ∷ codes "/tmp"
    ∷ []

abbrev work_dir : Text
work_dir = codes "/w/"

abbrev lines : List Text
lines = codes "logs" ∷ []

default_test :
    filter_files changed [] false lines work_dir ≡ codes "/w/a.txt" ∷ codes "/w/b.txt" ∷ []
unfolding filter_files filter_download_files file_matcher ignore_filters matches nat_eq list_eq
    bool_eq sort text_le
default_test = refl

filter_files_sound_example :
    (contains changed (codes "/w/a.txt") ≡ true)
    × (starts_with (codes "/w/a.txt") work_dir ≡ true)
    × (all
          (λ m. keeps_download m work_dir (codes "/w/a.txt"))
          (chosen_filters [] false (ignore_filters (lines ++ ignore_filename ∷ [])))
        ≡ true)
filter_files_sound_example =
    filter_files_sound changed [] false lines work_dir (codes "/w/a.txt")
      (rw default_test (unfold nat_eq list_eq in refl))

filter_files-ignored_example :
    contains (filter_files changed [] false lines work_dir) (codes "/w/logs/x") ≡ false
unfolding nat_eq list_eq Path.relative_to Path.parse Path.as_posix starts_with ends_with
filter_files-ignored_example =
    filter_files-ignored changed lines work_dir (codes "/w/logs/x") (codes "logs")
      (record { root = []; parts = codes "logs" ∷ codes "x" ∷ [] }) refl (λ e. ground arith) refl
      refl refl refl (inr refl)

abbrev text_filter : FileMatcher
text_filter = record {
  match_string = codes "*.txt";
  exact = false;
  absolute_path = false;
  include = true;
}

abbrev stats : UploadStats
stats = (codes "a", record { orig_size = 3; orig_time = 1500000; up_time = 9000000 }) ∷ []

check_if_modified_lem_example :
    (((check_if_modified stats (codes "a") 3 1700000).1 ≡ true) ↔ (
      (s : UploadStat) × (get_stat (codes "a") stats ≡ some s)
      × Same s 3 1700000
      × (seconds s.orig_time ≢ seconds s.up_time)))
    × (((check_if_modified stats (codes "a") 3 1700000).0 ≡ true)
        ↔ ((s : UploadStat) → get_stat (codes "a") stats ≡ some s → ¬ Same s 3 1700000))
check_if_modified_lem_example = check_if_modified_lem stats (codes "a") 3 1700000
