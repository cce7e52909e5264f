-- ===== src/Tests/Ends.antt =====
-- The ends of runs, the options, and what is told to the user.
use cincan_command.Prelude.{
  Text, codes, contains, length, Bool, true, false, some, none, List, [], ◌∷◌, ◌++◌, ◌≡◌, refl,
  nat_eq, list_eq, arith, text_le,
}
use cincan_command.Path.{parse}
use cincan_command.Log.Json.{TimeFormat, CommandLog, new_log}
use cincan_command.Run.{Call, downloaded, removed, call_eq, Exec, Fetch, Env, run}
use cincan_command.Run.Cleanup.{last_calls, wants_results, run-last_calls}
use cincan_command.Images.Progress.{Status, Terminal, set_state, reports, report, start}
use cincan_command.Images.Progress.Shown.{Shown, report-Shown}
use cincan_command.Frontend.{ImageConfig, start_command, detect_shell}
use cincan_command.Main.{Args, shell, Tool, tool_of, action_of}
use cincan_command.Main.Shell.{action_of-shell}

-- Times as their texts
abbrev texts : TimeFormat
texts = record {
  Time = Text;
  le = text_le;
  strftime = λ t. t;
  strptime = λ v. some v;
  strptime-strftime = λ t. refl;
}

-- Ctrl+C while the tool runs, and a new image of what there is
abbrev env : Env texts
env = record {
  exec = λ log. Exec.interrupted;
  download = Fetch.fetched [];
  download_anyway = Fetch.raises;
  create_image = true;
  commits = true;
  removes = true;
  loaded_image = true;
}

abbrev log : CommandLog texts
log = new_log texts (codes "tool" ∷ []) (codes "noon")

run-last_calls_example :
    (calls : List Call) × ((run texts env (parse (codes "/w")) [] [] log).1
      ≡ calls ++ last_calls texts env)
    × (contains calls removed ≡ false)
    × (contains calls downloaded ≡ wants_results texts env (env.exec log))
run-last_calls_example = run-last_calls texts env (parse (codes "/w")) [] [] log refl

abbrev waiting : Status
waiting = record { id = codes "l1"; status = codes "Waiting"; progress = [] }

abbrev pulling : Status
pulling = record { id = codes "l2"; status = codes "Pulling"; progress = codes "[=>]" }

abbrev done : Status
done = record { id = codes "l1"; status = codes "Pull complete"; progress = [] }

abbrev blank : Terminal
blank = record { rows = λ i. []; cursor = 0 }

report-Shown_example :
    let p = reports (codes "r") 80 (waiting ∷ pulling ∷ []) (start blank) in
    let q = report (codes "r") 80 done p in
    (q.locations ≡ set_state (codes "l1") done p.locations)
    × Shown (codes "r") 80 0 q.locations q.terminal
    × (q.terminal.cursor ≡ length q.locations)
unfolding nat_eq list_eq reports
report-Shown_example =
    report-Shown (codes "r") 80 (waiting ∷ pulling ∷ []) done blank
      ((λ e. ground arith), ((λ e. ground arith), tt)) (λ e. ground arith) refl refl

abbrev args : Args
args = record {
  log_level = none;
  quiet = false;
  version = false;
  tool = codes "cincan/t" ∷ codes "x" ∷ [];
  path = none;
  pull = false;
  batch = false;
  input_tar = none;
  output_tar = none;
  output_dir = none;
  no_implicit_output = false;
  explicit_output = none;
  in_filter = none;
  out_filter = none;
  no_defaults = false;
  create_image = false;
  entrypoint = some (codes "/bin/true");
  network = none;
  user = none;
  cap_add = none;
  cap_drop = none;
  runtime = none;
  interactive = false;
  tty = false;
  shell = some (codes "/bin/sh");
}

abbrev tool : Tool
unfolding tool_of
tool = tool_of shell (codes "cincan/t") args

abbrev has_all : Text → Bool
has_all s = true

abbrev config : ImageConfig
config = record { entrypoint = []; cmd = codes "run" ∷ [] }

action_of-shell_example :
    (tool.is_tty ≡ true)
    × (tool.read_stdin ≡ true)
    × ((codes "/bin/sh" ∷ []) ≡ detect_shell has_all (codes "/bin/sh") [] ∷ [])
    × (◌≡◌ {A = List Text} [] [])
unfolding tool_of start_command action_of nat_eq list_eq
action_of-shell_example =
    action_of-shell (codes "latest") args tool (codes "x" ∷ []) has_all [] config
      (codes "/bin/sh" ∷ []) [] (codes "/bin/sh") (λ e. ground arith) refl refl refl
