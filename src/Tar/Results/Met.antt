-- ===== src/Tar/Results/Met.antt =====
-- How much a whole download of cincan/tar_tool.py logs.
use cincan_command.Prelude.{◌+◌, ◌≤◌, Text, length, Bool, some, List, ◌≡◌, arith}
use cincan_command.Matcher.{FileMatcher}
use cincan_command.Tar.Modified.{UploadStats}
use cincan_command.Tar.Download.{Bytes, Host, Download}
use cincan_command.Tar.Download.Met.{Counts, download_file_set-files}
use cincan_command.Tar.Results.{Container, candidates, download_files}
use cincan_command.Tar.Results.Rounds.{IsPreorder, download_rounds-Keeps}

Counts-IsPreorder : IsPreorder Counts
Counts-IsPreorder = record {
  related_self = λ d. omega arith;
  related_then = λ d d₁ d₂ c c'. omega (arith, c, c');
}

-- If a download returns, its log entries and the files that are left are together no more than the
-- changed files that pass the filters, however many archives it has asked for.
pub download_files-count :
    (digest : Bytes → Text) (c : Container) (work_dir : Text) (stats : UploadStats) (to_tar : Bool)
    (filters : List FileMatcher) (no_defaults : Bool) (file_paths : List Text)
    (implicit_output : Bool) (host : Host) (d : Download)
    → download_files digest c work_dir stats to_tar filters no_defaults file_paths implicit_output
        host
      ≡ some d
    → length d.logged + length d.files ≤ length (candidates c filters no_defaults work_dir)
unfolding download_files
download_files-count digest c work_dir stats to_tar filters no_defaults file_paths implicit_output
      host d h =
    let n =
      download_rounds-Keeps Counts Counts-IsPreorder digest c work_dir stats to_tar
        (λ b ms d₁ d₂ e. (download_file_set-files digest work_dir stats to_tar b ms d₁ d₂ e).1)
        file_paths implicit_output _ d h in
    omega (arith, n)
