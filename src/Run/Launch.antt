-- ===== src/Run/Launch.antt =====
-- `__run` of cincan/frontend.py as a whole, with `__create_container`: from a tool and its arguments
-- to the container that has got its files, and to the end of it.
pub mod Laws
pub mod Files
pub mod Output
pub mod Kept
pub mod Fresh
pub mod Status
use cincan_command.Prelude.{
  ℕ, suc, Text, codes, Bool, true, false, Option, none, some, List, [], ◌∷◌, ◌++◌, if◌then◌else◌,
}
use mathlib.Core.Option
use cincan_command.Path.{PurePath, as_posix}
use cincan_command.Matcher.{FileMatcher}
use cincan_command.Main.{Tool, Origin, from_image, from_path, or_empty}
use cincan_command.Frontend.{
  ImageConfig, Start, container, exits, start_command, namespace_conversion,
}
use cincan_command.Frontend.Image.{name_of}
use cincan_command.Resolver.{Host, Resolver, parse_all, file_resolver}
use cincan_command.Resolver.Upload.{resolve_upload_files}
use cincan_command.Tar.Download.{Bytes, ◌>>=◌}
use cincan_command.Tar.Upload.{Source, Content, Logged, Upload, upload}
use cincan_command.Log.Json.{TimeFormat, FileLog, CommandLog, new_log}
use cincan_command.Run.{Call, Env, Finished, run}

-- `do_resolve=not self.input_tar`
abbrev pub do_resolve : Option Text → Bool
do_resolve none = true
do_resolve (some _) = false

-- `input_filters or []`
abbrev pub or_no_filters : Option (List FileMatcher) → List FileMatcher
or_no_filters none = []
or_no_filters (some ms) = ms

module _ (T : TimeFormat) where
  -- What the program finds outside of it
  pub record World : Type 0 where
    -- whether Docker Hub is the default remote, and the prefix of the remote registry
    pub docker_hub : Bool
    pub full_prefix : Text
    pub host : Host
    pub contents : PurePath → Option Source
    -- the members of an archive that is given as a file or, as "-", on the standard input
    pub archive : Text → List (Text × Source)
    -- whether the image has a file
    pub has : Text → Bool
    pub default_shells : List Text
    pub config : ImageConfig
    pub digest : Bytes → Text
    -- the readings of the clock
    pub now : ℕ → ℕ
    pub fromtimestamp : ℕ → T.Time

  pub data Created : Type 0 where
    -- there is no shell, and no container
    no_shell : Created
    -- the upload raises, and there is a container
    upload_raises : Created
    -- the entry point and the command, the log, what is noted of the upload, and what is put
    created : List Text → List Text → CommandLog T → Upload → Option Content → Created

  -- The first reading of the clock is the log's, from when the program was loaded.
  abbrev pub no_upload : Upload
  no_upload = record { entries = []; dirs = []; upload_stats = []; in_files = []; readings = 1 }

  abbrev uploaded :
      List Text → List Text → CommandLog T → Option (Upload × Option Content) → Created
  uploaded entry_point user_cmd log none = upload_raises
  uploaded entry_point user_cmd log (some (u, content)) = created entry_point user_cmd log u content

  module _ (w : World) where
    unfoldable pub log_of : Tool → List Text → CommandLog T
    unfolding name_of
    log_of t user_cmd =
        new_log T (name_of w.docker_hub w.full_prefix t.name t.origin ∷ user_cmd)
          (w.fromtimestamp (w.now 0))

    start_container : Tool → List (PurePath × Text) → Start → Created
    start_container t upload_files exits = no_shell
    start_container t upload_files (container entry_point user_cmd) =
        uploaded entry_point user_cmd (log_of t user_cmd) (
          upload w.digest w.host.resolve w.now w.contents upload_files
            (Option.map w.archive t.input_tar) no_upload)

    -- `__create_container`
    unfoldable pub create_container : Tool → List (PurePath × Text) → List Text → Created
    unfolding start_container upload start_command log_of
    create_container t upload_files command = start_container t upload_files (
        start_command w.has (or_empty t.shell) w.default_shells (or_empty t.entrypoint) w.config
          command)

    abbrev pub resolver_of : Tool → List Text → Option Resolver
    resolver_of t args =
        file_resolver w.host args t.output_dirs (do_resolve t.input_tar)
          (or_no_filters t.input_filters)

    -- `__run` up to the container, with the files that are uploaded. A part of an argument that
    -- cannot be split raises.
    unfoldable pub launch : Tool → List Text → Option (List (PurePath × Text) × Created)
    unfolding create_container resolve_upload_files file_resolver
    launch t args = do
      r ← resolver_of t args
      upload_files ← resolve_upload_files w.host (parse_all t.output_dirs) r.host_files
      some (upload_files, create_container t upload_files r.command_args)

    pub file_logs : List Logged → List (FileLog T)
    file_logs [] = []
    file_logs ((path, digest, mtime) ∷ rest) =
        record { path = path; digest = digest; timestamp = some (w.fromtimestamp mtime) }
        ∷ file_logs rest

    pub host_names : List (PurePath × Text) → List Text
    unfolding as_posix
    host_names [] = []
    host_names ((host_file, name) ∷ rest) = as_posix host_file ∷ host_names rest

    run_created :
        Env T → PurePath → List (PurePath × Text) → Created → Option (Finished T) × List Call
    run_created env work_dir upload_files no_shell = (none, [])
    run_created env work_dir upload_files upload_raises = (none, [])
    run_created env work_dir upload_files (created entry_point user_cmd log u content) =
        run T env work_dir (host_names upload_files) (file_logs u.in_files) log

    -- `__run`, with what is done with a container once it has its files
    unfoldable pub run_tool : Env T → PurePath → Tool → List Text → Option (Finished T) × List Call
    unfolding launch run_created host_names file_logs run
    run_tool env work_dir t args = elim (launch t args) [
      | none ↦ (none, [])
      | some (upload_files, c) ↦ run_created env work_dir upload_files c
    ]
