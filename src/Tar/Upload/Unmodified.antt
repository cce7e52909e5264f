-- ===== src/Tar/Upload/Unmodified.antt =====
-- A file that has been uploaded, when it is met again in the container: `__create_tar` and
-- `__download_file_set` of cincan/tar_tool.py together.
use cincan_command.Prelude.{
  ℕ, zero, suc, Text, contains, length, keep, drop-append, starts_with-append, All, Bool, true,
  false, not, Option, Option-cases, none, some, List, [], ◌∷◌, ◌++◌, ◌==◌, nat_eq, list_eq, ◌≡◌,
  ◌≢◌, ◌⊎◌, inl, inr, refl, sym, ap, ◌∙◌, arith,
}
use cincan_command.Path.{PurePath, parse, as_posix, parent, join_path}
use cincan_command.Tar.Modified.{
  UploadStat, get_stat, set_stat, get_stat-set_stat, get_stat-set_self, check_if_modified,
  check_if_modified-eq-unmodified, seconds,
}
use cincan_command.Tar.Download.{Bytes, Member, Download, step, host_path}
use cincan_command.Tar.Upload.{
  Source, regular, directory, unknown, Upload, lead_dirs, add_dir, size_of, mtime_of, add_source,
  add_file, add_upload, create_tar, note_stat,
}

lead_dirs-upload_stats :
    (fuel : ℕ) (p : PurePath) (u u' : Upload)
    → lead_dirs fuel p u ≡ some u'
    → u'.upload_stats ≡ u.upload_stats
unfolding lead_dirs add_dir
lead_dirs-upload_stats zero p u u' h = ground arith
lead_dirs-upload_stats (suc fuel) p u u' h =
    ground (arith, lead_dirs-upload_stats fuel (parent p) (add_dir (as_posix p) u) u')

-- The stat that is noted of a source
abbrev stat_of : Source → ℕ → UploadStat
stat_of s time = record { orig_size = size_of s; orig_time = mtime_of s; up_time = time }

module _ (digest : Bytes → Text) (resolve : PurePath → PurePath) (now : ℕ → ℕ)
    (host : PurePath → Option Source) where
  add_file-stats :
      (host_file : PurePath) (name : Text) (o : Option Source) (u u' : Upload)
      → add_file digest resolve now host_file name o u ≡ some u'
      → (u'.upload_stats ≡ u.upload_stats)
        ⊎ ((s : Source) × (u'.upload_stats
              ≡ set_stat name (stat_of s (now u.readings)) u.upload_stats))
  unfolding add_file add_source note_stat
  add_file-stats host_file name none u u' h = inl (ground arith)
  add_file-stats host_file name (some (regular c t)) u u' h = inr (regular c t, ground arith)
  add_file-stats host_file name (some (directory t)) u u' h = inr (directory t, ground arith)
  add_file-stats host_file name (some (unknown t)) u u' h = cc

  add_regular-stats :
      (host_file : PurePath) (name : Text) (c : Bytes) (t : ℕ) (u u' : Upload)
      → add_file digest resolve now host_file name (some (regular c t)) u ≡ some u'
      → u'.upload_stats ≡ set_stat name (stat_of (regular c t) (now u.readings)) u.upload_stats
  unfolding add_file add_source note_stat
  add_regular-stats host_file name c t u u' h = ground arith

  add_upload_inv :
      (host_file : PurePath) (name : Text) (u u' : Upload)
      → add_upload digest resolve now host host_file name u ≡ some u'
      → (u₁ : Upload) × (add_file digest resolve now host_file name (host host_file) u₁ ≡ some u')
        × (u₁.upload_stats ≡ u.upload_stats)
  unfolding add_upload
  add_upload_inv host_file name u u' h =
      let p : PurePath = parent (parse name) in
      elim (Option-cases (lead_dirs (length p.parts) p u)) [
        | inl e ↦ let h' = rw e at h in cc h'
        | inr (u₁, e) ↦ (u₁, rw e at h, lead_dirs-upload_stats (length p.parts) p u u₁ e)
      ]

  -- A file with another archive name leaves the stat of a file as it is.
  create_tar-other :
      (files : List (PurePath × Text)) (a : Text) (u u' : Upload)
      → All (λ f. f.1 ≢ a) files
      → create_tar digest resolve now host files u ≡ some u'
      → get_stat a u'.upload_stats ≡ get_stat a u.upload_stats
  unfolding create_tar
  create_tar-other [] a u u' n h = ground arith
  create_tar-other ((host_file, name) ∷ files) a u u' n h =
      elim (Option-cases (add_upload digest resolve now host host_file name u)) [
        | inl e ↦ let h' = rw e at h in cc h'
        | inr (u₁, e) ↦
            let (u₂, e₂, same) = add_upload_inv host_file name u u₁ e in
            let h' : create_tar digest resolve now host files u₁ ≡ some u' = rw e at h in
            create_tar-other files a u₁ u' n.1 h'
            ∙ elim (add_file-stats host_file name (host host_file) u₂ u₁ e₂) [
              | inl k ↦ ap (get_stat a) (k ∙ same)
              | inr (s, k) ↦
                  rw (k, same)
                    (get_stat-set_stat name a (stat_of s (now u₂.readings)) u.upload_stats
                      ∙ ground (arith, n.0))
            ]
      ]

  create_tar-regular :
      (before after : List (PurePath × Text)) (host_file : PurePath) (a : Text) (c : Bytes) (t : ℕ)
      (u u' : Upload)
      → host host_file ≡ some (regular c t)
      → All (λ f. f.1 ≢ a) after
      → create_tar digest resolve now host (before ++ (host_file, a) ∷ after) u ≡ some u'
      → (i : ℕ) × (get_stat a u'.upload_stats ≡ some (stat_of (regular c t) (now i)))
  unfolding create_tar
  create_tar-regular [] after host_file a c t u u' e n h =
      elim (Option-cases (add_upload digest resolve now host host_file a u)) [
        | inl e₁ ↦ let h' = rw e₁ at h in cc h'
        | inr (u₁, e₁) ↦
            let (u₂, e₂, same) = add_upload_inv host_file a u u₁ e₁ in
            let e₃ : add_file digest resolve now host_file a (some (regular c t)) u₂ ≡ some u₁ =
              rw e at e₂ in
            let h' : create_tar digest resolve now host after u₁ ≡ some u' = rw e₁ at h in
            let k = add_regular-stats host_file a c t u₂ u₁ e₃ in
            (
              u₂.readings,
              create_tar-other after a u₁ u' n h'
                  ∙ ap (get_stat a) k
                  ∙ get_stat-set_self a (stat_of (regular c t) (now u₂.readings)) u₂.upload_stats,
            )
      ]
  create_tar-regular ((k, b) ∷ before) after host_file a c t u u' e n h =
      elim (Option-cases (add_upload digest resolve now host k b u)) [
        | inl e₁ ↦ let h' = rw e₁ at h in cc h'
        | inr (u₁, e₁) ↦ create_tar-regular before after host_file a c t u₁ u' e n (rw e₁ at h)
      ]

  host_path-append : (work_dir a : Text) → host_path work_dir (work_dir ++ a) ≡ some (parse a)
  unfolding host_path
  host_path-append work_dir a = rw (starts_with-append work_dir a, drop-append work_dir a) refl

  -- A regular file that is uploaded, and met in the container with its size and the second of its
  -- time, is not downloaded: it is taken out of the set, and neither the host nor the log nor a tar
  -- file changes. The conditions: its name is relative and in its normal form, no later file of the
  -- upload has the name, the clock never shows the second of the file's time during the upload, and
  -- the file is in the set under the working directory.
  pub step-create_tar :
      (before after : List (PurePath × Text)) (host_file : PurePath) (a : Text) (c : Bytes) (t : ℕ)
      (u u' : Upload) (work_dir : Text) (to_tar : Bool) (base_path : PurePath) (m : Member)
      (d : Download)
      → host host_file ≡ some (regular c t)
      → All (λ f. f.1 ≢ a) after
      → create_tar digest resolve now host (before ++ (host_file, a) ∷ after) u ≡ some u'
      → ((i : ℕ) → seconds (now i) ≢ seconds t)
      → as_posix (parse a) ≡ a
      → (parse a).root ≡ []
      → as_posix (join_path (parent base_path) m.name) ≡ work_dir ++ a
      → contains d.files (work_dir ++ a) ≡ true
      → m.size ≡ length c
      → seconds m.mtime ≡ seconds t
      → step digest work_dir u'.upload_stats to_tar base_path m d
        ≡ some (record d { files = keep (λ f. not (f == work_dir ++ a)) d.files })
  unfolding step
  step-create_tar before after host_file a c t u u' work_dir to_tar base_path m d e n h old posix
        rel name listed size time =
      let (i, s) = create_tar-regular before after host_file a c t u u' e n h in
      let unmodified : check_if_modified u'.upload_stats a m.size m.mtime ≡ (false, true) =
        check_if_modified-eq-unmodified u'.upload_stats a m.size m.mtime
          (stat_of (regular c t) (now i)) s (sym size, sym time) (λ k. old i (sym k)) in
      rw (name, listed, host_path-append work_dir a, posix, unmodified, rel) (ground arith)
