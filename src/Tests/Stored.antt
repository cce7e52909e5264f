-- ===== src/Tests/Stored.antt =====
-- A download onto the host.
use cincan_command.Prelude.{
  ℕ, Text, codes, contains, starts_with, All, true, false, some, none, List, [], ◌∷◌, ◌≡◌, ◌≢◌, ◌⊎◌,
  inl, inr, refl, sym, ap, ◌∙◌, nat_eq, list_eq, bool_eq, arith, ◌==◌, if◌then◌else◌, sort, text_le,
}
use cincan_command.Path.{PurePath, parse, as_posix}
use cincan_command.Tar.Filter.{filter_files}
use cincan_command.Tar.Config.{ignore_filters, config_lines}
use cincan_command.Matcher.{filter_download_files}
use cincan_command.Tar.Modified.{check_if_modified, get_stat}
use cincan_command.Tar.Download.{
  Host, Member, file, Download, download_file_set, host_path, save_file, temp_name,
}
use cincan_command.Tar.Download.OnDisk.{Apart, Told}
use cincan_command.Tar.Results.{Container, candidates, download_files}
use cincan_command.Tar.Results.OnDisk.{download_files-Told}
use cincan_command.Tests.Transfers.{digest}

abbrev member : Text → List ℕ → Member
member name c = record { name = parse name; size = 1; mtime = 1; mode = 420; content = some c }

-- Two files have changed in the container.
abbrev box : Container
box = record {
  diff = some (codes "/w/a") ∷ some (codes "/w/b") ∷ [];
  archive = λ path.
      if path == codes "/w/"
      then some (member (codes "w/a") (8 ∷ []) ∷ member (codes "w/b") (9 ∷ []) ∷ [])
      else none;
  ignore_file = none;
}

-- One of them is on the host, with another content.
abbrev host : Host
host j = if j == codes "a" then some (file (1 ∷ [])) else none

abbrev nothing : Download
nothing = record { files = []; host = host; written = []; logged = [] }

abbrev stored : Download
unfolding download_files
stored = elim (download_files digest box (codes "/w/") [] false [] false [] true host) [
  | none ↦ nothing
  | some d ↦ d
]

stored_test :
    (stored.host (codes "a") ≡ some (file (8 ∷ [])))
    × (stored.host (codes "b") ≡ some (file (9 ∷ [])))
    × (stored.host (codes "a_TEMP") ≡ none)
unfolding nat_eq list_eq bool_eq parse as_posix download_files text_le sort starts_with
    download_file_set filter_files ignore_filters config_lines filter_download_files
    check_if_modified get_stat save_file
stored_test = (refl, refl, refl)

candidates_test : candidates box [] false (codes "/w/") ≡ codes "/w/a" ∷ codes "/w/b" ∷ []
unfolding nat_eq list_eq bool_eq parse as_posix candidates text_le sort starts_with filter_files
    ignore_filters config_lines filter_download_files
candidates_test = refl

abbrev pair : List Text
pair = codes "/w/a" ∷ codes "/w/b" ∷ []

one_of_pair : (f : Text) → contains pair f ≡ true → (f ≡ codes "/w/a") ⊎ (f ≡ codes "/w/b")
one_of_pair f h = ground arith

-- The place of each of them
place_of :
    (f : Text) (p : PurePath)
    → contains pair f ≡ true
    → host_path (codes "/w/") f ≡ some p
    → ((f ≡ codes "/w/a") × (as_posix p ≡ codes "a"))
      ⊎ ((f ≡ codes "/w/b") × (as_posix p ≡ codes "b"))
unfolding host_path nat_eq list_eq parse as_posix starts_with
place_of f p h e = elim (one_of_pair f h) [
  | inl same ↦
      let e' = rw same at e in
      let there : parse (codes "a") ≡ p = ground arith in inl (same, sym (ap as_posix there))
  | inr same ↦
      let e' = rw same at e in
      let there : parse (codes "b") ≡ p = ground arith in inr (same, sym (ap as_posix there))
]

pair-Apart : Apart digest (codes "/w/") [] (candidates box [] false (codes "/w/"))
pair-Apart f g p q c c' n e e' =
    let c₁ = rw candidates_test at c in
    let c₂ = rw candidates_test at c' in apart (place_of f p c₁ e) (place_of g q c₂ e')
  where
    apart :
        (((f ≡ codes "/w/a") × (as_posix p ≡ codes "a"))
          ⊎ ((f ≡ codes "/w/b") × (as_posix p ≡ codes "b")))
        → (((g ≡ codes "/w/a") × (as_posix q ≡ codes "a"))
            ⊎ ((g ≡ codes "/w/b") × (as_posix q ≡ codes "b")))
        → (as_posix p ≢ as_posix q) × (temp_name digest (as_posix p) ≢ as_posix q)
    apart (inl (h, k)) (inl (h', k')) = absurd (n (h ∙ sym h'))
    apart (inr (h, k)) (inr (h', k')) = absurd (n (h ∙ sym h'))
    apart (inl (h, k)) (inr (h', k')) = rw (k, k') (λ s. ground arith, λ s. ground arith)
    apart (inr (h, k)) (inl (h', k')) = rw (k, k') (λ s. ground arith, λ s. ground arith)

download_files-Told_example : All (Told digest stored.host) stored.logged
unfolding nat_eq list_eq bool_eq parse as_posix download_files text_le sort starts_with
    download_file_set filter_files ignore_filters config_lines filter_download_files
    check_if_modified get_stat save_file
download_files-Told_example =
    download_files-Told digest (codes "/w/") [] box [] false [] true host stored pair-Apart refl
