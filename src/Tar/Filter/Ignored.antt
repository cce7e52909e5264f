-- ===== src/Tar/Filter/Ignored.antt =====
-- The container's ignore file, under the defaults of `__filter_files` of cincan/tar_tool.py.
use cincan_command.Prelude.{
  Text, starts_with-one, sym, ◌∙◌, Free, codes, starts_with, ends_with, contains, contains-append,
  starts_with_eq, ends_with-Free, split-concat, append_assoc, all, Bool, true, false, ◌&&◌, some,
  List, [], ◌∷◌, ◌++◌, nat_eq, list_eq, ◌≡◌, ◌≢◌, ◌⊎◌, inl, inr, refl, arith, Bool-cases, bool_eq,
}
use mathlib.Core.Bool.{false≢true}
use cincan_command.Path.{PurePath, parse, as_posix, relative_to}
use cincan_command.Matcher.{FileMatcher, file_matcher, matches, keeps_download}
use cincan_command.Matcher.Glob.{star, Glob_self, Glob-star, Glob-literal}
use cincan_command.Matcher.Complete.{tail_of, matches-eq-true}
use cincan_command.Tar.Config.{ignore_line, ignore_filters}
use cincan_command.Tar.Filter.{filter_files, chosen_filters, ignore_filename}
use cincan_command.Tar.Filter.Laws.{filter_files_sound}

all-append {ℓ} :
    {A : Type ℓ} (p : A → Bool) (xs ys : List A) → all p (xs ++ ys) ≡ (all p xs && all p ys)
all-append p [] ys = refl
all-append p (x ∷ xs) ys = ground (arith, all-append p xs ys)

all-ignore_filters :
    (p : FileMatcher → Bool) (lines : List Text) (line : Text)
    → contains lines line ≡ true
    → all p (ignore_filters lines) ≡ true
    → all p (ignore_line line) ≡ true
unfolding ignore_filters
all-ignore_filters p [] line m h = cc
all-ignore_filters p (l ∷ lines) line m h =
    ground
      (arith, all-append p (ignore_line l) (ignore_filters lines), all-ignore_filters p lines line)

contains-append_left :
    (xs ys : List Text) (a : Text) → contains xs a ≡ true → contains (xs ++ ys) a ≡ true
contains-append_left [] ys a h = cc
contains-append_left (x ∷ xs) ys a h = ground (arith, contains-append_left xs ys a)

-- A pattern that names a directory's content matches all that lies below the directory.
below-matches :
    (line value : Text)
    → Free star line
    → starts_with value (line ++ codes "/") ≡ true
    → matches (file_matcher (line ++ codes "/*") false) value ≡ true
unfolding tail_of
below-matches line value f h =
    matches-eq-true (line ++ codes "/*") value false
      (inl rw (← append_assoc line (codes "/") (codes "*"))
        (split-concat star (line ++ codes "/")).0)
      (rw (← append_assoc line (codes "/") (codes "*"), starts_with_eq value (line ++ codes "/") h)
        (Glob-literal (line ++ codes "/") (codes "*") _ free (Glob-star _)))
  where
    free : Free star (line ++ codes "/")
    free = ground (arith, contains-append line (codes "/") star)

-- An excluding filter with a relative pattern, at a file of the working directory
keeps_download-excluding :
    (work_dir c p : Text) (rel_file : PurePath)
    → starts_with p (codes "/") ≡ false
    → relative_to (parse c) (parse work_dir) ≡ some rel_file
    → matches (file_matcher p false) (as_posix rel_file) ≡ true
    → keeps_download (file_matcher p false) work_dir c ≡ false
unfolding keeps_download file_matcher bool_eq
keeps_download-excluding work_dir c p rel_file rel r h = rw (rel, r, h) refl

-- No file that a line names passes both filters of the line.
keeps_download-ignore_line :
    (work_dir c line : Text) (rel_file : PurePath)
    → Free star line
    → line ≢ []
    → starts_with line (codes "/") ≡ false
    → ends_with line b'/' ≡ false
    → relative_to (parse c) (parse work_dir) ≡ some rel_file
    → (as_posix rel_file ≡ line) ⊎ (starts_with (as_posix rel_file) (line ++ codes "/") ≡ true)
    → all (λ m. keeps_download m work_dir c) (ignore_line line) ≡ false
unfolding ignore_line
keeps_download-ignore_line work_dir c [] rel_file f n rel plain r lies = absurd (n refl)
keeps_download-ignore_line work_dir c (l ∷ line) rel_file f n rel plain r (inl here) =
    let same : matches (file_matcher (l ∷ line) false) (as_posix rel_file) ≡ true =
      matches-eq-true (l ∷ line) _ false (inr f) (rw here (Glob_self (l ∷ line) f)) in
    rw
      (
        plain,
        ends_with-Free star (l ∷ line) f,
        keeps_download-excluding work_dir c (l ∷ line) rel_file rel r same,
      )
      refl
keeps_download-ignore_line work_dir c (l ∷ line) rel_file f n rel plain r (inr below) =
    let same : matches (file_matcher ((l ∷ line) ++ codes "/*") false) (as_posix rel_file) ≡ true =
      below-matches (l ∷ line) (as_posix rel_file) f below in
    let rel' : starts_with ((l ∷ line) ++ codes "/*") (codes "/") ≡ false =
      starts_with-one l line (codes "/*") b'/' rel in
    rw
      (
        plain,
        ends_with-Free star (l ∷ line) f,
        keeps_download-excluding work_dir c ((l ∷ line) ++ codes "/*") rel_file rel' r same,
      )
      (ground arith)

-- A file of the working directory is not downloaded, without filters of the user and unless the
-- defaults are switched off, if a line of the
-- ignore file names it, or names a directory in which it lies. The line is a relative name without
-- a star and without a slash at its end.
pub filter_files-ignored :
    (candidates ignore_paths : List Text) (work_dir c line : Text) (rel_file : PurePath)
    → Free star line
    → line ≢ []
    → starts_with line (codes "/") ≡ false
    → ends_with line b'/' ≡ false
    → contains ignore_paths line ≡ true
    → relative_to (parse c) (parse work_dir) ≡ some rel_file
    → (as_posix rel_file ≡ line) ⊎ (starts_with (as_posix rel_file) (line ++ codes "/") ≡ true)
    → contains (filter_files candidates [] false ignore_paths work_dir) c ≡ false
unfolding chosen_filters
filter_files-ignored candidates ignore_paths work_dir c line rel_file f n rel plain m r lies =
    elim (Bool-cases (contains (filter_files candidates [] false ignore_paths work_dir) c)) [
      | inr e ↦ e
      | inl e ↦
          let kept =
            all-ignore_filters (λ (m : FileMatcher). keeps_download m work_dir c)
              (ignore_paths ++ ignore_filename ∷ []) line
              (contains-append_left ignore_paths (ignore_filename ∷ []) line m)
              (filter_files_sound candidates [] false ignore_paths work_dir c e).2 in
          let lost = keeps_download-ignore_line work_dir c line rel_file f n rel plain r lies in
          absurd (false≢true (sym lost ∙ kept))
    ]
