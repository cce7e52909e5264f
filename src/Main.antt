-- ===== src/Main.antt =====
-- `main` of cincan/frontend.py: from the options, as argparse gives them, to what the tool does.
pub mod Shell
use cincan_command.Prelude.{
  ℕ, Text, codes, contains, Bool, true, false, not, ◌&&◌, ◌||◌, Option, none, some, List, [], ◌∷◌,
  ◌++◌, ◌==◌, nat_eq, list_eq, if◌then◌else◌,
}
use cincan_command.Matcher.{FileMatcher}
use cincan_command.Matcher
use cincan_command.Images.{rsplit}
use cincan_command.Log.Json.{TimeFormat, CommandLog}

pub data SubCommand : Type 0 where
  help run test shell manifest list unexpected : SubCommand

pub data LogLevel : Type 0 where
  debug info warning error critical : LogLevel

-- The options. An absent one is none.
pub record Args : Type 0 where
  pub log_level : Option LogLevel
  pub quiet : Bool
  pub version : Bool
  pub tool : List Text
  pub path : Option Text
  pub pull : Bool
  pub batch : Bool
  pub input_tar : Option Text
  pub output_tar : Option Text
  pub output_dir : Option (List Text)
  pub no_implicit_output : Bool
  pub explicit_output : Option (List Text)
  pub in_filter : Option (List Text)
  pub out_filter : Option (List Text)
  pub no_defaults : Bool
  pub create_image : Bool
  pub entrypoint : Option Text
  pub network : Option Text
  pub user : Option Text
  pub cap_add : Option (List Text)
  pub cap_drop : Option (List Text)
  pub runtime : Option Text
  pub interactive : Bool
  pub tty : Bool
  pub shell : Option Text

-- The image that `ToolImage` is made of
pub data Origin : Type 0 where
  from_image : Text → Bool → Origin
  from_path : Text → Origin

-- The attributes of the `ToolImage`
pub record Tool : Type 0 where
  pub name : Text
  pub origin : Origin
  pub batch : Bool
  pub input_tar : Option Text
  pub output_tar : Option Text
  pub output_dirs : List Text
  pub implicit_output : Bool
  pub explicit_output : Option (List Text)
  pub input_filters : Option (List FileMatcher)
  pub output_filters : Option (List FileMatcher)
  pub no_defaults : Bool
  pub create_image : Bool
  pub entrypoint : Option Text
  pub network_mode : Option Text
  pub user : Option Text
  pub cap_add : Option (List Text)
  pub cap_drop : Option (List Text)
  pub runtime : Option Text
  pub is_tty : Bool
  pub read_stdin : Bool
  pub shell : Option Text

pub data Action : Type 0 where
  shows_version : Action
  shows_help : Action
  -- `sys.exit(message)`
  refuses : Text → Action
  -- the tool is run, or checked, with these arguments
  runs : Tool → List Text → Action
  checks : Tool → List Text → Action
  -- the name and the tag of the image
  shows_manifest : Text → Text → Action
  lists : Action

-- `args.log_level if args.log_level else ('WARNING' if args.quiet else 'INFO')`
unfoldable pub log_level_of : Args → LogLevel
log_level_of args = elim args.log_level [
  | some level ↦ level
  | none ↦ if args.quiet then warning else info
]

-- Whether the level is below a warning
unfoldable pub is_verbose_level : LogLevel → Bool
is_verbose_level debug = true
is_verbose_level info = true
is_verbose_level warning = false
is_verbose_level error = false
is_verbose_level critical = false

-- `v if v else None`
non_empty : Option Text → Option Text
non_empty (some []) = none
non_empty v = v

abbrev pub or_nil : Option (List Text) → List Text
or_nil none = []
or_nil (some vs) = vs

abbrev pub or_empty : Option Text → Text
or_empty none = []
or_empty (some v) = v

filters_of : Option (List Text) → Option (List FileMatcher)
unfolding Matcher.parse
filters_of none = none
filters_of (some ms) = some (Matcher.parse ms)

abbrev is_shell : SubCommand → Bool
is_shell shell = true
is_shell _ = false

origin_of : Text → Args → Option Text → Origin
origin_of name args none = from_image name args.pull
origin_of name args (some path) = from_path path

unfoldable pub tool_of : SubCommand → Text → Args → Tool
unfolding non_empty filters_of origin_of
tool_of sub_command name args =
    let in_shell = is_shell sub_command in
    record {
      name = name;
      origin = origin_of name args args.path;
      batch = args.batch;
      input_tar = non_empty args.input_tar;
      output_tar = non_empty args.output_tar;
      output_dirs = or_nil args.output_dir;
      implicit_output = not args.no_implicit_output;
      explicit_output = args.explicit_output;
      input_filters = filters_of args.in_filter;
      output_filters = filters_of args.out_filter;
      no_defaults = args.no_defaults;
      create_image = args.create_image;
      entrypoint = if in_shell then some [] else args.entrypoint;
      network_mode = args.network;
      user = args.user;
      cap_add = args.cap_add;
      cap_drop = args.cap_drop;
      runtime = args.runtime;
      is_tty = if in_shell then true else args.tty;
      read_stdin = if in_shell then true else args.interactive;
      shell = if in_shell then args.shell else some [];
    }

-- `tool.input_tar and tool.input_filters`: an empty list of filters is none.
unfoldable pub both_inputs : Option Text → Option (List FileMatcher) → Bool
both_inputs (some v) (some (m ∷ ms)) = true
both_inputs _ _ = false

start_tool : SubCommand → Tool → List Text → Action
start_tool sub_command t rest =
    if both_inputs t.input_tar t.input_filters
    then refuses (codes "Cannot specify input filters with input tar file")
    else elim sub_command [ test ↦ checks t rest | _ ↦ runs t rest ]

with_tool : SubCommand → Args → List Text → Action
unfolding start_tool both_inputs tool_of
with_tool sub_command args [] = refuses (codes "Missing tool name argument")
with_tool sub_command args (name ∷ rest) =
    start_tool sub_command (tool_of sub_command name args) rest

unfoldable pub manifest_of : Text → List Text → Action
unfolding rsplit
manifest_of stable_tag [] = refuses (codes "Missing tool name argument")
manifest_of stable_tag (name ∷ rest) =
    let (repository, tag) = rsplit name in
    if contains name b':' then shows_manifest repository tag else shows_manifest name stable_tag

by_sub_command : Text → SubCommand → Args → Action
by_sub_command stable_tag help args = shows_help
by_sub_command stable_tag run args = with_tool run args args.tool
by_sub_command stable_tag test args = with_tool test args args.tool
by_sub_command stable_tag shell args = with_tool shell args args.tool
by_sub_command stable_tag manifest args = manifest_of stable_tag args.tool
by_sub_command stable_tag list args = lists
by_sub_command stable_tag unexpected args = refuses (codes "Unexpected sub command 'None")

-- `main` up to the run, with the configured stable tag
unfoldable pub action_of : Text → SubCommand → Args → Action
unfolding by_sub_command with_tool manifest_of
action_of stable_tag sub_command args =
    if args.version then shows_version else by_sub_command stable_tag sub_command args

-- The end of `main`: whether the log is written, what is put out, and the exit code
unfoldable pub finish_run : {T : TimeFormat} → Bool → CommandLog T → Bool × List ℕ × List ℕ × ℕ
finish_run command_log log =
    (log.exit_code == 0 && command_log, log.stdout, log.stderr, log.exit_code)
