-- ===== src/Program.antt =====
-- `main` of cincan/frontend.py as a whole: the options, the image, the run and the log.
pub mod Laws
pub mod Status
use cincan_command.Prelude.{
  ℕ, Text, codes, Bool, true, false, not, ◌&&◌, Option, none, some, List, [], ◌∷◌, if◌then◌else◌,
}
use mathlib.Core.Option
use cincan_command.Path.{PurePath}
use cincan_command.Log.Json.{TimeFormat, CommandLog}
use cincan_command.Log.Store.{Home, log_run}
use cincan_command.Main
use cincan_command.Main.{
  SubCommand, help, run, test, shell, manifest, list, unexpected, Args, Tool, Origin, log_level_of,
  is_verbose_level, tool_of, both_inputs, manifest_of, Action,
}
use cincan_command.Images.{Client, Names}
use cincan_command.Versions.{VersionInfo}
use cincan_command.Frontend.Image.{Settings, ToolImage, Made, made, exits, raises, tool_image}
use cincan_command.Session.Exec
use cincan_command.Run.{Env}
use cincan_command.Run.Launch.{World}
use cincan_command.Run.Launch.Output.{run_args}
use cincan_command.Check.{Place, returns, default_args}
use cincan_command.Check

-- How the program ends
pub data Finish : Type 0 where
  -- with an exit code, once all output has been written: standard output and error output
  ended : ℕ → List ℕ → List ℕ → Finish
  -- `sys.exit(message)`
  exits_with : Text → Finish
  -- with an exit code, and what has been logged
  exited : ℕ → Finish
  -- by an exception or a `sys.exit` within the run, or not at all if no free name is left for a log
  raised : Finish
  -- what the subcommands without a tool show
  shows_version : Finish
  shows_manifest : Text → Text → Finish
  lists : Finish

module _ (T : TimeFormat) (names : Names) (client : Client) where
  open client use {State, Image}

  -- What the program finds outside of it, besides the `World` of a run
  pub record Outside : Type 0 where
    pub show_updates : Bool
    pub connects : Bool
    -- the depth of Python's recursion
    pub depth : ℕ
    pub current : Image → Text
    pub info : Text → Option VersionInfo
    pub build : Text → State → Option Image × State
    pub has_terminal : Bool
    pub work_dir : PurePath
    -- what comes of the container, and how downloads and the removal of the container end
    pub outcome : Exec.Outcome
    pub env : Env T
    -- the directories of a check before it, and what its run makes of them
    pub place : Place
    pub after_run : Place → Place
    -- whether the log is wanted, the UUID and the names that the clock gives
    pub command_log : Bool
    pub uuid : Text
    pub log_names : List Text
    pub home : PurePath

  module _ (w : World T) (o : Outside) where
    -- What `ToolImage` reads of the configuration, in a program with these options
    abbrev settings_of : Args → Settings
    settings_of args = record {
      docker_hub = w.docker_hub;
      show_updates = o.show_updates;
      is_verbose = is_verbose_level (log_level_of args);
      connects = o.connects;
    }

    -- The end of a run, of which the program knows whether the image has been loaded
    env_of : Tool → Bool → Env T
    env_of t loaded_image = record o.env {
      create_image = t.create_image;
      loaded_image = loaded_image;
    }

    -- `tool.run(all_args)`
    unfoldable pub run_with : Tool → Bool → List Text → Option (CommandLog T)
    unfolding env_of run_args
    run_with t loaded_image args =
        run_args T w (env_of t loaded_image) o.work_dir t o.has_terminal o.outcome args

    to_check : CommandLog T → Check.Log
    to_check log = record { exit_code = log.exit_code; stdout = log.stdout; stderr = log.stderr }

    reported : Option (CommandLog T) → Check.Result → Option (CommandLog T)
    reported (some log) (returns l) = some (record log { stdout = l.stdout })
    reported _ _ = none

    -- `self.tool.entrypoint = '/usr/bin/env'`
    abbrev pub as_check : Tool → Tool
    as_check t = record t { entrypoint = some (codes "/usr/bin/env") }

    -- `check.run(all_args)`. The world is the one that the run within it finds.
    unfoldable pub check_with : Tool → Bool → List Text → Option (CommandLog T)
    unfolding run_with to_check reported Check.run
    check_with t loaded_image args =
        let log = run_with (as_check t) loaded_image (default_args args) in
        reported log
          (Check.run (λ all_args p. (Option.map to_check log, o.after_run p)) args o.place).0

    ended_by : CommandLog T → Home → Option Home → Finish × Home
    ended_by log h none = (raised, h)
    ended_by log h (some h') = (ended log.exit_code log.stdout log.stderr, h')

    -- The end of a tool's run: its log is written, and its output
    after_log : Option (CommandLog T) → Home → Finish × Home
    unfolding ended_by log_run
    after_log none h = (raised, h)
    after_log (some log) h =
        ended_by log h (log_run o.home T o.command_log o.uuid log o.log_names h)

    log_by : SubCommand → Tool → Bool → List Text → Option (CommandLog T)
    unfolding run_with check_with
    log_by test t loaded_image rest = check_with t loaded_image rest
    log_by _ t loaded_image rest = run_with t loaded_image rest

    -- What is done with the image, once there is one
    with_made :
        SubCommand
        → Tool
        → List Text
        → Made names client × State
        → Home
        → Finish × List Text × State × Home
    unfolding after_log log_by both_inputs
    with_made sub_command t rest (exits code, s) h = (exited code, [], s, h)
    with_made sub_command t rest (raises, s) h = (raised, [], s, h)
    with_made sub_command t rest (made image, s) h =
        if both_inputs t.input_tar t.input_filters
        then (
          exits_with (codes "Cannot specify input filters with input tar file"),
          image.told,
          s,
          h,
        )
        else (let (f, h') = after_log (log_by sub_command t image.loaded_image rest) h in
            (f, image.told, s, h'))

    start_with : SubCommand → Args → List Text → State → Home → Finish × List Text × State × Home
    unfolding with_made tool_image tool_of
    start_with sub_command args [] s h = (exits_with (codes "Missing tool name argument"), [], s, h)
    start_with sub_command args (name ∷ rest) s h =
        let t = tool_of sub_command name args in
        with_made sub_command t rest
          (tool_image names client (settings_of args) args.batch o.current o.info o.build o.depth
            name t.origin s)
          h

    manifest_with : Action → Finish
    manifest_with (Action.refuses message) = exits_with message
    manifest_with (Action.shows_manifest name tag) = shows_manifest name tag
    manifest_with _ = raised

    by_command : SubCommand → Args → State → Home → Finish × List Text × State × Home
    unfolding start_with manifest_with manifest_of
    by_command help args s h = (exited 1, [], s, h)
    by_command run args s h = start_with run args args.tool s h
    by_command test args s h = start_with test args args.tool s h
    by_command shell args s h = start_with shell args args.tool s h
    by_command manifest args s h =
        (manifest_with (manifest_of names.stable_tag args.tool), [], s, h)
    by_command list args s h = (lists, [], s, h)
    by_command unexpected args s h = (exits_with (codes "Unexpected sub command 'None"), [], s, h)

    -- `main`: how the program ends, what it tells of versions, and what it leaves in the docker client
    -- and in the user's home directory
    unfoldable pub program : SubCommand → Args → State → Home → Finish × List Text × State × Home
    unfolding by_command
    program sub_command args s h =
        if args.version then (shows_version, [], s, h) else by_command sub_command args s h
