-- ===== src/Run.antt =====
-- `__run` and `__download_results` of cincan/frontend.py: the life of a container, with what becomes
-- of exceptions and of Ctrl+C.
pub mod Cleanup
pub mod Launch
use cincan_command.Prelude.{
  ℕ, Text, starts_with, codes, Eq, Bool, true, false, not, ◌&&◌, Option, none, some, List, [], ◌∷◌,
  ◌++◌, ◌==◌, nat_eq, list_eq, if◌then◌else◌, sort, text_le,
}
use mathlib.Core.Option
use cincan_command.Path.{PurePath, as_posix, relative_to}
use cincan_command.Log.Json.{TimeFormat, FileLog, CommandLog}
use cincan_command.Tar.Download.{◌>>=◌}

-- What is done with the container, in its order
pub data Call : Type 0 where
  executed downloaded killed committed removed image_removed : Call

pub Call-discrete : Discrete Call
Call-discrete = hlevel

instance unfoldable pub call_eq : Eq Call
unfolding Call-discrete
call_eq = record { dec = Call-discrete }

-- `if self.explicit_output`: the paths to download and whether output is looked for
unfoldable pub download_arguments : List Text → List Text → Bool → List Text × Bool
download_arguments [] output_dirs implicit_output = (output_dirs, implicit_output)
download_arguments (fp ∷ fps) output_dirs implicit_output = (fp ∷ fps, false)

module _ (T : TimeFormat) where
  -- How the execution ends: with a log, by Ctrl+C, or by another exception
  pub data Exec : Type 0 where
    returns : CommandLog T → Exec
    interrupted : Exec
    raises : Exec

  -- How a download ends
  pub data Fetch : Type 0 where
    fetched : List (FileLog T) → Fetch
    interrupted : Fetch
    raises : Fetch

  pub record Env : Type 0 where
    pub exec : CommandLog T → Exec
    -- the download behind the execution, and the one behind Ctrl+C
    pub download : Fetch
    pub download_anyway : Fetch
    pub create_image : Bool
    -- whether `commit` and `remove` return; the errors of `kill` and `remove_image` are caught
    pub commits : Bool
    pub removes : Bool
    -- whether the image has been loaded, and not made
    pub loaded_image : Bool

  -- The end of the part that is tried: a log or an exception, and the calls
  abbrev pub Ended : Type 0
  Ended = Option (CommandLog T) × List Call

  abbrev extend_out : List (FileLog T) → CommandLog T → CommandLog T
  extend_out files log = record log { out_files = log.out_files ++ files }

  after_interrupt : Fetch → CommandLog T → List Call → Ended
  after_interrupt (fetched files) log calls =
      (some (extend_out files log), calls ++ downloaded ∷ [])
  after_interrupt _ log calls = (none, calls ++ downloaded ∷ [])

  after_download : Env → Fetch → CommandLog T → Ended
  after_download env (fetched files) log = (some (extend_out files log), executed ∷ downloaded ∷ [])
  after_download env Fetch.interrupted log =
      after_interrupt env.download_anyway log (executed ∷ downloaded ∷ [])
  after_download env Fetch.raises log = (none, executed ∷ downloaded ∷ [])

  after_exec : Env → List (FileLog T) → CommandLog T → Exec → Ended
  after_exec env in_files log (returns log') =
      let log'' = record log' { in_files = log'.in_files ++ in_files } in
      if log'.exit_code == 0
      then after_download env env.download log''
      else (some log'', executed ∷ [])
  after_exec env in_files log Exec.interrupted =
      after_interrupt env.download_anyway log (executed ∷ [])
  after_exec env in_files log Exec.raises = (none, executed ∷ [])

  -- `try` and `except KeyboardInterrupt`, with the log of the new container
  unfoldable pub try_run : Env → List (FileLog T) → CommandLog T → Ended
  unfolding after_exec after_download after_interrupt
  try_run env in_files log = after_exec env in_files log (env.exec log)

  remove_container : Env → Bool × List Call
  remove_container env =
      if not env.removes
      then (false, removed ∷ [])
      else if not env.loaded_image
      then (true, removed ∷ image_removed ∷ [])
      else (true, removed ∷ [])

  -- `finally`: whether it ends without an exception
  unfoldable pub clean_up : Env → Bool × List Call
  unfolding remove_container
  clean_up env =
      let (ok, calls) = remove_container env in
      if not env.create_image
      then (ok, killed ∷ calls)
      else if not env.commits
      then (false, killed ∷ committed ∷ [])
      else (ok, killed ∷ committed ∷ calls)

  -- `[f.path.relative_to(work_dir).as_posix() for f in …]`, with `none` for a file elsewhere
  unfoldable pub download_names : PurePath → List (FileLog T) → Option (List Text)
  unfolding as_posix relative_to starts_with
  download_names work_dir [] = some []
  download_names work_dir (f ∷ fs) =
      let rest = download_names work_dir fs in
      if starts_with (as_posix f.path) (codes "/dev/")
      then rest
      else (relative_to f.path work_dir >>= λ p. rest >>= λ names. some (as_posix p ∷ names))

  pub record Finished : Type 0 where
    pub log : CommandLog T
    pub upload_files : List Text
    pub download_files : List Text

  finish : PurePath → List Text → CommandLog T → Option Finished
  finish work_dir uploaded log = do
    names ← download_names work_dir log.out_files
    some (record {
      log = log;
      upload_files = sort text_le uploaded;
      download_files = sort text_le names;
    })

  -- `__run` once the container is created, with the names and entries of the files that it got
  unfoldable pub run :
      Env → PurePath → List Text → List (FileLog T) → CommandLog T → Option Finished × List Call
  unfolding try_run clean_up download_names finish
  run env work_dir uploaded in_files log =
      let (ended, calls) = try_run env in_files log in
      let (ok, more) = clean_up env in
      ((if ok then (ended >>= finish work_dir uploaded) else none), calls ++ more)
