-- ===== src/Tar/Results/OnDisk.antt =====
-- What a whole download of cincan/tar_tool.py leaves on the host, by its log.
use cincan_command.Prelude.{Text, All, All-map, Bool, false, some, List, ◌≡◌}
use cincan_command.Matcher.{FileMatcher}
use cincan_command.Tar.Modified.{UploadStats}
use cincan_command.Tar.Download.{Bytes, Host, Download}
use cincan_command.Tar.Download.OnDisk.{Apart, Told, IsStored, download_file_set-IsStored}
use cincan_command.Tar.Results.Rounds.{IsPreorder, download_rounds-Keeps}
use cincan_command.Tar.Results.{Container, candidates, download_files}

module _ (digest : Bytes → Text) (work_dir : Text) (stats : UploadStats) where
  abbrev KeepsStored :
      (allowed : List Text) → Apart digest work_dir stats allowed → Download → Download → Type 0
  KeepsStored allowed apart d d' =
      IsStored digest work_dir stats allowed apart d
      → IsStored digest work_dir stats allowed apart d'

  stored-IsPreorder :
      (allowed : List Text) (apart : Apart digest work_dir stats allowed)
      → IsPreorder (KeepsStored allowed apart)
  stored-IsPreorder allowed apart = record {
    related_self = λ d a. a;
    related_then = λ d d₁ d₂ f g a. g (f a);
  }

  -- If a download to the host returns, then for every entry of its log that has a digest, there is a
  -- file of that digest at the entry's path on the host. The condition: different files among those
  -- that may be downloaded have different places on the host, and none of them is at the place of
  -- another's temporary file.
  pub download_files-Told :
      (c : Container) (filters : List FileMatcher) (no_defaults : Bool) (file_paths : List Text)
      (implicit_output : Bool) (host : Host) (d : Download)
      → Apart digest work_dir stats (candidates c filters no_defaults work_dir)
      → download_files digest c work_dir stats false filters no_defaults file_paths implicit_output
          host
        ≡ some d
      → All (Told digest d.host) d.logged
  unfolding download_files
  download_files-Told c filters no_defaults file_paths implicit_output host d apart h =
      let allowed : List Text = candidates c filters no_defaults work_dir in
      let stored : IsStored digest work_dir stats allowed apart d =
        download_rounds-Keeps (KeepsStored allowed apart) (stored-IsPreorder allowed apart) digest c
          work_dir stats false (download_file_set-IsStored digest work_dir stats allowed apart)
          file_paths implicit_output _ d h
          (record { files_allowed = λ f l. l; logged_told = tt }) in
      All-map _ _ (λ e (placed, told). told) d.logged stored.logged_told
