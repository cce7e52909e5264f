-- ===== src/Tar/Download/Met.antt =====
-- What the loop of `__download_file_set` of cincan/tar_tool.py leaves to do.
use cincan_command.Prelude.{
  ◌+◌, ◌≤◌, Text, contains, any, keep, length, length-append, length-keep_ne, Bool, Bool-cases,
  true, false, not, ◌&&◌, ◌||◌, Option-cases, some, List, [], ◌∷◌, ◌==◌, nat_eq, list_eq, ◌≡◌, inl,
  inr, refl, sym, ap, ◌∙◌, arith,
}
use cincan_command.Path.{PurePath, as_posix, parent, join_path}
use cincan_command.Tar.Modified.{UploadStats}
use cincan_command.Tar.Download.{
  Bytes, Member, Download, host_path, save_at, step, download_file_set,
}
use cincan_command.Tar.Download.Logged.{Fetched, save_at-Fetched}

-- `cont_full_name`
abbrev pub full_name : PurePath → Member → Text
full_name base_path m = as_posix (join_path (parent base_path) m.name)

keep-absent : (a : Text) (xs : List Text) → contains xs a ≡ false → keep (λ f. not (f == a)) xs ≡ xs
keep-absent a [] h = refl
keep-absent a (x ∷ xs) h = ground (arith, keep-absent a xs)

keep-keep : (p q : Text → Bool) (xs : List Text) → keep p (keep q xs) ≡ keep (λ x. q x && p x) xs
keep-keep p q [] = refl
keep-keep p q (x ∷ xs) = ground (arith, keep-keep p q xs)

keep-same : (p q : Text → Bool) (xs : List Text) → ((x : Text) → p x ≡ q x) → keep p xs ≡ keep q xs
keep-same p q [] h = refl
keep-same p q (x ∷ xs) h = ground (arith, h x, keep-same p q xs h)

keep-all : (p : Text → Bool) (xs : List Text) → ((x : Text) → p x ≡ true) → keep p xs ≡ xs
keep-all p [] h = refl
keep-all p (x ∷ xs) h = ground (arith, h x, keep-all p xs h)

met-step : (a f : Text) (later : Bool) → (not (f == a) && not later) ≡ not (a == f || later)
met-step a f later = ground arith

-- As many entries more as files less at most
abbrev pub Counts : Download → Download → Type 0
Counts d d' = length d'.logged + length d'.files ≤ length d.logged + length d.files

Fetched-Counts :
    (to_tar : Bool) (k name : Text) (d d' : Download)
    → contains d.files name ≡ true
    → Fetched to_tar k (record d { files = keep (λ f. not (f == name)) d.files }) d'
    → Counts d d'
Fetched-Counts to_tar k name d d' c (e, _, logged, files, _) = omega (
  arith,
  ap length logged,
  ap length files,
  length-append d.logged (e ∷ []),
  length-keep_ne name d.files c,
)

module _ (digest : Bytes → Text) (work_dir : Text) (stats : UploadStats) (to_tar : Bool) where
  step-Counts :
      (base_path : PurePath) (m : Member) (d d' : Download)
      → step digest work_dir stats to_tar base_path m d ≡ some d'
      → (d'.files ≡ keep (λ f. not (f == full_name base_path m)) d.files) × Counts d d'
  unfolding step
  step-Counts base_path m d d' h =
      let name : Text = full_name base_path m in
      let d₁ : Download = record d { files = keep (λ f. not (f == name)) d.files } in
      elim (Bool-cases (contains d.files name)) [
        | inr e ↦
            let h' = rw e at h in
            let same : d ≡ d' = ground arith in
            rw (← same) (sym (keep-absent name d.files e), omega arith)
        | inl e ↦
            let h' : save_at digest work_dir stats to_tar (host_path work_dir name) m d₁ ≡ some d' =
              rw e at h in
            elim (save_at-Fetched digest work_dir stats to_tar (host_path work_dir name) m d₁ d'
              h') [
                | inl same ↦ rw (← same) (refl, omega (arith, length-keep_ne name d.files e))
                | inr (p, _, _, f) ↦ (f.3, Fetched-Counts to_tar (as_posix p) name d d' e f)
              ]
      ]

  -- If the loop over an archive returns, the files of the set that are left are exactly those that
  -- no member of the archive is about, in their order, and as many log entries have been added as
  -- files taken out at most.
  pub download_file_set-files :
      (base_path : PurePath) (ms : List Member) (d d' : Download)
      → download_file_set digest work_dir stats to_tar base_path ms d ≡ some d'
      → (d'.files ≡ keep (λ f. not (any (λ m. full_name base_path m == f) ms)) d.files)
        × Counts d d'
  unfolding download_file_set
  download_file_set-files base_path [] d d' h =
      let same : d ≡ d' = ground arith in
      rw (← same) (sym (keep-all _ d.files (λ x. refl)), omega arith)
  download_file_set-files base_path (m ∷ ms) d d' h =
      elim (Option-cases (step digest work_dir stats to_tar base_path m d)) [
        | inl e ↦ let h' = rw e at h in cc h'
        | inr (d₁, e) ↦
            let (f₁, c₁) = step-Counts base_path m d d₁ e in
            let (f₂, c₂) = download_file_set-files base_path ms d₁ d' (rw e at h) in
            (
              f₂
                  ∙ ap (keep (λ f. not (any (λ m'. full_name base_path m' == f) ms))) f₁
                  ∙ keep-keep _ _ d.files
                  ∙ keep-same _ _ d.files (λ f. met-step (full_name base_path m) f _),
              omega (arith, c₁, c₂),
            )
      ]
