-- ===== src/Tar/Results/Returns.antt =====
-- When a download into a tar file returns, by the loops of cincan/tar_tool.py.
use cincan_command.Prelude.{Text, contains, Bool, true, All, some, List, nat_eq, list_eq, ◌≡◌, refl}
use cincan_command.Path.{parse}
use cincan_command.Matcher.{FileMatcher}
use cincan_command.Tar.Modified.{UploadStats}
use cincan_command.Tar.Download.{Bytes, Host, Member, Download}
use cincan_command.Tar.Results.{Container, candidates, download_files}
use cincan_command.Tar.Results.Rounds.{IsEffect, download_rounds-Shows}
use cincan_command.Tar.Download.Met.{full_name}
use cincan_command.Tar.Download.Returns.{IsFile, Returns, download_file_set-Returns}

Returns-IsEffect : (allowed : List Text) → IsEffect (Returns allowed)
Returns-IsEffect allowed = record {
  of_nothing = λ d w. (d, refl, w);
  of_both =
      λ d o g k kg w. let (d₁, e, w₁) = k w in let (d₂, e', w₂) = kg d₁ w₁ in (d₂, rw e e', w₂);
}

module _ (digest : Bytes → Text) (work_dir : Text) (stats : UploadStats) where
  -- A download into a tar file returns, whatever the filters and the explicit paths are, if those of
  -- the changed files that pass the filters and stand in an archive that the container gives are
  -- regular files. Besides them, the archives may have directories and whatever else.
  pub download_files-returns :
      (c : Container) (filters : List FileMatcher) (no_defaults : Bool) (file_paths : List Text)
      (implicit_output : Bool) (host : Host)
      → ((path : Text) (ms : List Member)
          → c.archive path ≡ some ms
          → All
              (λ m.
                contains (candidates c filters no_defaults work_dir) (full_name (parse path) m)
                  ≡ true
                → IsFile m)
              ms)
      → (d : Download) × (download_files digest c work_dir stats true filters no_defaults file_paths
            implicit_output host
          ≡ some d)
  unfolding download_files
  download_files-returns c filters no_defaults file_paths implicit_output host h =
      let allowed : List Text = candidates c filters no_defaults work_dir in
      let (d, e, _) =
        download_rounds-Shows (Returns allowed) (Returns-IsEffect allowed) digest c work_dir stats
          true
          (λ path ms e d.
            download_file_set-Returns digest work_dir stats allowed (parse path) ms d (h path ms e))
          file_paths implicit_output _ (λ f k. k) in
      (d, e)
