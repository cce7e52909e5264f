-- ===== src/Tar/Download/Returns.antt =====
-- When the loop of `__download_file_set` of cincan/tar_tool.py returns.
use cincan_command.Prelude.{
  Text, Bool, Bool-cases, not, keep, ◌==◌, arith, true, All, contains, Option, none, some, List, [],
  ◌∷◌, nat_eq, list_eq, ◌≡◌, inl, inr, refl,
}
use cincan_command.Path.{PurePath, as_posix, is_absolute}
use cincan_command.Tar.Modified.{UploadStats, check_if_modified}
use cincan_command.Tar.Download.Met.{full_name}
use cincan_command.Tar.Download.{
  Bytes, Member, Download, fetch, log_entry, add_written, save_at, step, host_path,
  download_file_set,
}

-- A member is a regular file.
abbrev pub IsFile : Member → Type 0
IsFile m = (c : Bytes) × (m.content ≡ some c)

-- The files that are still to be met are among the allowed ones.
abbrev pub Within : List Text → Download → Type 0
Within allowed d = (f : Text) → contains d.files f ≡ true → contains allowed f ≡ true

abbrev pub Returns : List Text → Download → Option Download → Type 0
Returns allowed d o = Within allowed d → (d' : Download) × (o ≡ some d') × Within allowed d'

contains-keep :
    (p : Text → Bool) (xs : List Text) (f : Text)
    → contains (keep p xs) f ≡ true
    → contains xs f ≡ true
contains-keep p [] f h = h
contains-keep p (x ∷ xs) f h = ground (arith, contains-keep p xs f)

Within-keep :
    (allowed : List Text) (p : Text → Bool) (d : Download)
    → Within allowed d
    → Within allowed (record d { files = keep p d.files })
Within-keep allowed p d w f h = w f (contains-keep p d.files f h)

module _ (digest : Bytes → Text) (work_dir : Text) (stats : UploadStats) (allowed : List Text) where
  save_at-Returns :
      (p : Option PurePath) (m : Member) (d : Download)
      → IsFile m
      → (d' : Download) × (save_at digest work_dir stats true p m d ≡ some d')
        × (d'.files ≡ d.files)
  unfolding save_at fetch log_entry add_written
  save_at-Returns none m d f = (d, refl, refl)
  save_at-Returns (some p) m d (c, f) = elim (Bool-cases (is_absolute p)) [
    | inl a ↦ rw a (d, refl, refl)
    | inr a ↦ elim (Bool-cases (check_if_modified stats (as_posix p) m.size m.mtime).1) [
      | inl u ↦ rw (a, u) (d, refl, refl)
      | inr u ↦ rw (a, u, f) (_, refl, refl)
    ]
  ]

  step-Returns :
      (base_path : PurePath) (m : Member) (d : Download)
      → (contains allowed (full_name base_path m) ≡ true → IsFile m)
      → Returns allowed d (step digest work_dir stats true base_path m d)
  unfolding step
  step-Returns base_path m d f w =
      let name : Text = full_name base_path m in
      let d₁ : Download = record d { files = keep (λ g. not (g == name)) d.files } in
      elim (Bool-cases (contains d.files name)) [
        | inr e ↦ rw e (d, refl, w)
        | inl e ↦
            let (d₂, e', same) = save_at-Returns (host_path work_dir name) m d₁ (f (w name e)) in
            rw e (d₂, e', λ g h. Within-keep allowed _ d w g (rw same at h))
      ]

  pub download_file_set-Returns :
      (base_path : PurePath) (ms : List Member) (d : Download)
      → All (λ m. contains allowed (full_name base_path m) ≡ true → IsFile m) ms
      → Returns allowed d (download_file_set digest work_dir stats true base_path ms d)
  unfolding download_file_set
  download_file_set-Returns base_path [] d f w = (d, refl, w)
  download_file_set-Returns base_path (m ∷ ms) d (f, fs) w =
      let (d₁, e, w₁) = step-Returns base_path m d f w in
      let (d₂, e', w₂) = download_file_set-Returns base_path ms d₁ fs w₁ in (d₂, rw e e', w₂)
