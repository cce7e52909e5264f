-- ===== src/Tests/Programs.antt =====
-- The program as a whole.
use cincan_command.Prelude.{
  Text, codes, true, false, none, List, [], ◌∷◌, ◌≡◌, refl, nat_eq, list_eq, sort, text_le,
  starts_with,
}
use cincan_command.Path.{path_eq, parse, as_posix, relative_to}
use cincan_command.Shlex.{is_word}
use cincan_command.Resolver.{include_sub_dirs}
use cincan_command.Log.Store.{Home, log_run, write_entry, log_base}
use cincan_command.Log.Directory.{end, write, exists}
use cincan_command.Main.{Args, tool_of, action_of}
use cincan_command.Main
use cincan_command.Images.{get_image, name_tag}
use cincan_command.Frontend.Image.{name_of, converted_names, tool_image}
use cincan_command.Session.Exec.{Outcome, exits, container_exec}
use cincan_command.Run.{Exec, Fetch, run}
use cincan_command.Run.Launch.{launch, log_of, run_tool}
use cincan_command.Run.Launch.Output.{run_args}
use cincan_command.Program.{ended, Outside, program, run_with}
use cincan_command.Tests.Launches.{texts, world}
use cincan_command.Tests.Tools.{client, names}

abbrev outside : Outcome → Outside texts names client
outside outcome = record {
  show_updates = true;
  connects = true;
  depth = 3;
  current = λ i. [];
  info = λ name. none;
  build = λ path s. (none, s);
  has_terminal = false;
  work_dir = parse (codes "/w");
  outcome = outcome;
  env = record {
    exec = λ log. Exec.raises;
    download = Fetch.fetched [];
    download_anyway = Fetch.raises;
    create_image = false;
    commits = true;
    removes = true;
    loaded_image = true;
  };
  place = record { in_folder = none; out_folder = none };
  after_run = λ p. p;
  command_log = true;
  uuid = codes "u1";
  log_names = codes "1" ∷ codes "2" ∷ [];
  home = parse (codes "/h");
}

abbrev home : Home
home = record { has_cincan = true; uid = none; logs_at = λ p. end }

-- `cincan run -q t d`
abbrev args : Args
args = record {
  log_level = none;
  quiet = true;
  version = false;
  tool = codes "t" ∷ codes "d" ∷ [];
  path = none;
  pull = false;
  batch = false;
  input_tar = none;
  output_tar = none;
  output_dir = none;
  no_implicit_output = false;
  explicit_output = none;
  in_filter = none;
  out_filter = none;
  no_defaults = false;
  create_image = false;
  entrypoint = none;
  network = none;
  user = none;
  cap_add = none;
  cap_drop = none;
  runtime = none;
  interactive = false;
  tty = false;
  shell = none;
}

abbrev images : List Text
images = codes "latest" ∷ []

program_test :
    (program texts names client world (outside (exits [] 0)) Main.run args images home).0
    ≡ ended 0 [] []
unfolding nat_eq list_eq parse as_posix is_word path_eq include_sub_dirs launch log_of text_le sort
    run_tool run relative_to run_args container_exec program run_with tool_of tool_image name_of
    converted_names get_image name_tag starts_with log_run write_entry log_base write exists
program_test = refl
