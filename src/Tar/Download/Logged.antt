-- ===== src/Tar/Download/Logged.antt =====
-- Which files `__download_file_set` of cincan/tar_tool.py fetches.
use cincan_command.Prelude.{
  Text, contains, contains-keep, All-append, keep, length, All, Bool, Bool-cases, true, false, not,
  Option, Option-cases, none, some, List, [], ◌∷◌, ◌++◌, ◌==◌, nat_eq, list_eq, ◌≡◌, ◌⊎◌, inl, inr,
  refl, sym, ◌∙◌, if◌then◌else◌, arith,
}
use mathlib.Core.Option
use cincan_command.Path.{PurePath, as_posix, parent, join_path, is_absolute}
use cincan_command.Tar.Filter.{named_parents}
use cincan_command.Tar.Modified.{UploadStats, check_if_modified}
use cincan_command.Tar.Download.{
  Bytes, Host, Member, LogEntry, Stamp, at_download, of_directory, is_none, Download, log_entry,
  add_written, with_host, fetch, host_path, save_at, step, download_file_set,
}

-- A file has been fetched: one entry more in the log, and the host is as before if a tar file is
-- written.
abbrev pub Fetched : Bool → Text → Download → Download → Type 0
Fetched to_tar k d d' =
    (e : LogEntry) × (e.path ≡ k)
    × (d'.logged ≡ d.logged ++ e ∷ [])
    × (d'.files ≡ d.files)
    × (to_tar ≡ true → d'.host ≡ d.host)

abbrev entry : Text → Text → Stamp → LogEntry
entry k md t = record { path = k; digest = md; timestamp = t }

module _ (digest : Bytes → Text) where
  stored-Fetched :
      (k md : Text) (t : Stamp) (d d' : Download) (o : Option Host)
      → Option.map (log_entry digest k md t) (with_host digest d o) ≡ some d'
      → Fetched false k d d'
  unfolding log_entry with_host
  stored-Fetched k md t d d' none h = cc
  stored-Fetched k md t d d' (some host) h =
      (entry k md t, refl, ground arith, ground arith, λ e. ground arith)

  fetch-Fetched :
      (to_tar : Bool) (k : Text) (dirs : List Text) (modified : Bool) (m : Member)
      (content : Option Bytes) (d d' : Download)
      → fetch digest to_tar k dirs modified m content d ≡ some d'
      → Fetched to_tar k d d'
  unfolding fetch log_entry add_written
  fetch-Fetched true k dirs modified m none d d' h = cc
  fetch-Fetched true k dirs modified m (some c) d d' h =
      (entry k (digest c) at_download, refl, ground arith, ground arith, λ e. ground arith)
  fetch-Fetched false k dirs modified m none d d' h =
      stored-Fetched k [] (if is_none (d.host k) then of_directory else at_download) d d' _ h
  fetch-Fetched false k dirs modified m (some c) d d' h =
      stored-Fetched k (digest c) at_download d d' _ h

  -- The files of the set are among the allowed ones, and each entry of the log is about one of
  -- them, at its place below the working directory of the host.
  pub record IsAllowed (work_dir : Text) (allowed : List Text) (d : Download) : Type 0 where
    pub files_allowed : (f : Text) → contains d.files f ≡ true → contains allowed f ≡ true
    pub logged_allowed :
        All
          (λ e.
            (f : Text) × (p : PurePath) × (contains allowed f ≡ true)
            × (host_path work_dir f ≡ some p)
            × (p.root ≡ [])
            × (as_posix p ≡ e.path))
          d.logged

  module _ (work_dir : Text) (stats : UploadStats) (to_tar : Bool) where
    pub save_at-Fetched :
        (o : Option PurePath) (m : Member) (d d' : Download)
        → save_at digest work_dir stats to_tar o m d ≡ some d'
        → (d ≡ d')
          ⊎ ((p : PurePath) × (o ≡ some p) × (p.root ≡ []) × Fetched to_tar (as_posix p) d d')
    unfolding save_at
    save_at-Fetched none m d d' h = inl (ground arith)
    save_at-Fetched (some p) m d d' h = elim (Bool-cases (is_absolute p)) [
      | inl e ↦ let h' = rw e at h in inl (ground arith)
      | inr e ↦ elim (Bool-cases (check_if_modified stats (as_posix p) m.size m.mtime).1) [
        | inl e' ↦ let h' = rw (e, e') at h in inl (ground arith)
        | inr e' ↦ inr (
          p,
          refl,
          ground arith,
          fetch-Fetched to_tar (as_posix p) (named_parents (length (parent p).parts) (parent p))
              (check_if_modified stats (as_posix p) m.size m.mtime).0 m m.content d d'
              (rw (e, e') at h),
        )
      ]
    ]

    module _ (allowed : List Text) where
      keeps-IsAllowed :
          (name : Text) (d d' : Download)
          → d ≡ d'
          → IsAllowed work_dir allowed d
          → IsAllowed work_dir allowed d' × (to_tar ≡ true → d'.host ≡ d.host)
      keeps-IsAllowed name d d' e a = rw (← e) (a, λ t. refl)

      Fetched-IsAllowed :
          (name : Text) (p : PurePath) (d d' : Download)
          → contains allowed name ≡ true
          → host_path work_dir name ≡ some p
          → p.root ≡ []
          → IsAllowed work_dir allowed d
          → Fetched to_tar (as_posix p) d d'
          → IsAllowed work_dir allowed d'
      Fetched-IsAllowed name p d d' c e r a (entry', path, logged, files, host) = record {
        files_allowed = λ f h. a.files_allowed f (rw files at h);
        logged_allowed = rw logged (
            All-append _ d.logged (entry' ∷ []) a.logged_allowed
              ((name, p, c, e, r, sym path), tt));
      }

      removed-IsAllowed :
          (name : Text) (d : Download)
          → IsAllowed work_dir allowed d
          → IsAllowed work_dir allowed (record d { files = keep (λ f. not (f == name)) d.files })
      removed-IsAllowed name d a = record {
        files_allowed = λ f h.
            a.files_allowed f (ground (arith, contains-keep (λ f. not (f == name)) f d.files));
        logged_allowed = a.logged_allowed;
      }

      step-IsAllowed :
          (base_path : PurePath) (m : Member) (d d' : Download)
          → step digest work_dir stats to_tar base_path m d ≡ some d'
          → IsAllowed work_dir allowed d
          → IsAllowed work_dir allowed d' × (to_tar ≡ true → d'.host ≡ d.host)
      unfolding step
      step-IsAllowed base_path m d d' h a =
          let name : Text = as_posix (join_path (parent base_path) m.name) in
          let d₁ : Download = record d { files = keep (λ f. not (f == name)) d.files } in
          let a₁ = removed-IsAllowed name d a in
          elim (Bool-cases (contains d.files name)) [
            | inr e ↦ let h' = rw e at h in keeps-IsAllowed name d d' (ground arith) a
            | inl e ↦
                let h' : save_at digest work_dir stats to_tar (host_path work_dir name) m d₁
                    ≡ some d' =
                  rw e at h in
                elim (save_at-Fetched (host_path work_dir name) m d₁ d' h') [
                  | inl k ↦ keeps-IsAllowed name d₁ d' k a₁
                  | inr (p, k, r, f) ↦
                      (Fetched-IsAllowed name p d₁ d' (a.files_allowed name e) k r a₁ f, f.4)
                ]
          ]

      -- Whatever is fetched is allowed, and a download into a tar file does not touch the host.
      pub download_file_set-IsAllowed :
          (base_path : PurePath) (ms : List Member) (d d' : Download)
          → download_file_set digest work_dir stats to_tar base_path ms d ≡ some d'
          → IsAllowed work_dir allowed d
          → IsAllowed work_dir allowed d' × (to_tar ≡ true → d'.host ≡ d.host)
      unfolding download_file_set
      download_file_set-IsAllowed base_path [] d d' h a = keeps-IsAllowed [] d d' (ground arith) a
      download_file_set-IsAllowed base_path (m ∷ ms) d d' h a =
          elim (Option-cases (step digest work_dir stats to_tar base_path m d)) [
            | inl e ↦ let h' = rw e at h in cc h'
            | inr (d₁, e) ↦
                let (a₁, k₁) = step-IsAllowed base_path m d d₁ e a in
                let (a₂, k₂) = download_file_set-IsAllowed base_path ms d₁ d' (rw e at h) a₁ in
                (a₂, λ t. k₂ t ∙ k₁ t)
          ]
