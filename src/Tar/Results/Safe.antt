-- ===== src/Tar/Results/Safe.antt =====
-- What a whole download of cincan/tar_tool.py may fetch.
use cincan_command.Prelude.{
  Text, Bool, Bool-cases, true, some, List, nat_eq, list_eq, if◌then◌else◌, ◌≡◌, inl, inr, refl,
  ◌∙◌,
}
use cincan_command.Matcher.{FileMatcher}
use cincan_command.Tar.Modified.{UploadStats}
use cincan_command.Tar.Download.{Bytes, Host, Download}
use cincan_command.Tar.Download.Logged.{IsAllowed, download_file_set-IsAllowed}
use cincan_command.Tar.Results.Rounds.{IsPreorder, download_rounds-Keeps}
use cincan_command.Tar.Results.{Container, candidates, download_files}

-- What a download whose files are allowed keeps: that they are, and so the logged ones, and the host
-- if a tar file is written
abbrev Safe : (Bytes → Text) → Text → Bool → List Text → Download → Download → Type 0
Safe digest work_dir to_tar allowed d d' =
    IsAllowed digest work_dir allowed d
    → IsAllowed digest work_dir allowed d' × (to_tar ≡ true → d'.host ≡ d.host)

Safe-IsPreorder :
    (digest : Bytes → Text) (work_dir : Text) (to_tar : Bool) (allowed : List Text)
    → IsPreorder (Safe digest work_dir to_tar allowed)
Safe-IsPreorder digest work_dir to_tar allowed = record {
  related_self = λ d a. (a, λ t. refl);
  related_then = λ d d₁ d₂ f g a. let (a₁, k) = f a in let (a₂, l) = g a₁ in (a₂, λ t. l t ∙ k t);
}

-- If a download returns, every log entry is about a file of the container that has changed and
-- passes the filters, at the path that is left of the file's name behind the working directory, which
-- has no root. It may have parts "..", if the file's name has. If a tar file is written, the host's
-- working directory stays as it is.
pub download_files-IsAllowed :
    (digest : Bytes → Text) (c : Container) (work_dir : Text) (stats : UploadStats) (to_tar : Bool)
    (filters : List FileMatcher) (no_defaults : Bool) (file_paths : List Text)
    (implicit_output : Bool) (host : Host) (d : Download)
    → download_files digest c work_dir stats to_tar filters no_defaults file_paths implicit_output
        host
      ≡ some d
    → IsAllowed digest work_dir (candidates c filters no_defaults work_dir) d
      × ((if to_tar then d.host else host) ≡ host)
unfolding download_files
download_files-IsAllowed digest c work_dir stats to_tar filters no_defaults file_paths
      implicit_output host d h =
    let allowed : List Text = candidates c filters no_defaults work_dir in
    let (a, k) =
      download_rounds-Keeps (Safe digest work_dir to_tar allowed)
        (Safe-IsPreorder digest work_dir to_tar allowed) digest c work_dir stats to_tar
        (download_file_set-IsAllowed digest work_dir stats to_tar allowed) file_paths
        implicit_output _ d h (record { files_allowed = λ f l. l; logged_allowed = tt }) in
    (a, elim (Bool-cases to_tar) [ inl e ↦ rw e (k e) | inr e ↦ rw e refl ])
