-- ===== src/Tests/Transfers.antt =====
-- The files that go into a container, and one that comes out unchanged.
use cincan_command.Prelude.{
  ℕ, ◌+◌, ◌*◌, Text, codes, starts_with, All, keep, false, not, Option, some, none, List, [], ◌∷◌,
  ◌≡◌, refl, nat_eq, list_eq, bool_eq, arith, ◌==◌, if◌then◌else◌, ◌++◌,
}
use cincan_command.Path.{PurePath, path_eq, parse, as_posix, join_path}
use cincan_command.Tar.Filter.{parents_of}
use cincan_command.Tar.Download.{Bytes, Member, Download, step}
use cincan_command.Tar.Upload.{Source, regular, Upload, upload, made, create_tar}
use cincan_command.Tar.Upload.Members.{members_of, sources_of, logs_of, upload-members}
use cincan_command.Tar.Upload.Laws.{Has, upload-Has}
use cincan_command.Tar.Upload.Unmodified.{step-create_tar}

-- A hash that tells contents apart
abbrev pub digest : Bytes → Text
digest c = c

abbrev same : PurePath → PurePath
same p = p

-- A clock that starts behind all times of files
abbrev now : ℕ → ℕ
now i = 9000000 + i * 1000000

abbrev two_files : List (PurePath × Text)
two_files = (parse (codes "d/a"), codes "d/a") ∷ (parse (codes "o"), codes "o") ∷ []

abbrev sources : PurePath → Option Source
sources p = if as_posix p == codes "d/a" then some (regular (1 ∷ []) 5000000) else none

abbrev nothing : Upload
nothing = record { entries = []; dirs = []; upload_stats = []; in_files = []; readings = 0 }

upload-Has_example :
    (u' : Upload) × (upload digest same now sources two_files none nothing
      ≡ some (u', some (made u'.entries)))
    × All (λ f. Has u' (parents_of f.1)) two_files
unfolding nat_eq list_eq parse as_posix starts_with
upload-Has_example =
    upload-Has digest same now sources (parse (codes "d/a"), codes "d/a")
      ((parse (codes "o"), codes "o") ∷ []) nothing ((refl, tt), ((refl, tt), tt))

abbrev uploaded : Upload
unfolding create_tar
uploaded = elim (create_tar digest same now sources two_files nothing) [
  | none ↦ nothing
  | some u ↦ u
]

upload-members_example :
    (some (made uploaded.entries) ≡ some (made uploaded.entries))
    × (members_of uploaded.entries ≡ sources_of sources two_files)
    × (uploaded.in_files ≡ nothing.in_files ++ logs_of digest same now sources two_files)
unfolding nat_eq list_eq parse as_posix create_tar upload
upload-members_example =
    upload-members digest same now sources (parse (codes "d/a"), codes "d/a")
      ((parse (codes "o"), codes "o") ∷ []) nothing uploaded (some (made uploaded.entries)) refl

abbrev met : Member
met = record {
  name = parse (codes "w/d/a");
  size = 1;
  mtime = 5000001;
  mode = 420;
  content = some (7 ∷ []);
}

abbrev pub before_download : Download
before_download = record {
  files = codes "/w/d/a" ∷ codes "/w/n" ∷ [];
  host = λ k. none;
  written = [];
  logged = [];
}

step-create_tar_example :
    step digest (codes "/w/") uploaded.upload_stats false (parse (codes "/w")) met before_download
    ≡ some (record before_download {
      files = keep (λ f. not (f == codes "/w/d/a")) before_download.files;
    })
unfolding nat_eq list_eq parse as_posix join_path create_tar
step-create_tar_example =
    step-create_tar digest same now sources [] ((parse (codes "o"), codes "o") ∷ [])
      (parse (codes "d/a")) (codes "d/a") (1 ∷ []) 5000000 nothing uploaded (codes "/w/") false
      (parse (codes "/w")) met before_download refl ((λ e. ground arith), tt) refl
      (λ i. λ e. omega (arith, e)) refl refl refl refl refl refl
