-- ===== src/Tests/Whole.antt =====
-- A whole run of a tool.
use cincan_command.Prelude.{
  Text, codes, some, none, Option, List, [], ◌∷◌, ◌++◌, ◌≡◌, refl, nat_eq, list_eq, sort, text_le,
  true, false, ℕ,
}
use cincan_command.Path.{PurePath, path_eq, parse, as_posix, relative_to}
use cincan_command.Shlex.{is_word}
use cincan_command.Resolver.{include_sub_dirs}
use cincan_command.Tar.Upload.{Content, Upload}
use cincan_command.Tar.Upload.Members.{logs_of}
use cincan_command.Log.Json.{FileLog, CommandLog, new_log}
use cincan_command.Run.{Exec, Fetch, Env, Finished, run}
use cincan_command.Run.Launch.{created, log_of, launch, file_logs, host_names, run_tool}
use cincan_command.Run.Launch.Files.{run_tool-logged}
use cincan_command.Session.{Ready}
use cincan_command.Session.Exec.{exits, start_fails, container_exec}
use cincan_command.Run.Launch.Output.{IsText, run_get_string, run_get_string-IsText}
use cincan_command.Tests.Launches.{texts, world, tool}

abbrev result : FileLog texts
result = record { path = parse (codes "/w/o/x"); digest = codes "d3"; timestamp = none }

-- An execution that puts something out and ends with 0, and one file to download
abbrev exec_log : CommandLog texts → CommandLog texts
exec_log log = record log { exit_code = 0; stdout = 104 ∷ [] }

abbrev env : Env texts
env = record {
  exec = λ log. Exec.returns (exec_log log);
  download = Fetch.fetched (result ∷ []);
  download_anyway = Fetch.raises;
  create_image = false;
  commits = true;
  removes = true;
  loaded_image = true;
}

abbrev args : List Text
args = codes "d" ∷ codes "out/x" ∷ []

abbrev nothing : Finished texts
nothing = record { log = new_log texts [] []; upload_files = []; download_files = [] }

abbrev finished : Finished texts
unfolding run_tool
finished = elim (run_tool texts world env (parse (codes "/w")) tool args).0 [
  | none ↦ nothing
  | some f ↦ f
]

run_test : (run_tool texts world env (parse (codes "/w")) tool args).0 ≡ some finished
unfolding nat_eq list_eq parse as_posix is_word path_eq include_sub_dirs launch log_of text_le sort
    run_tool run relative_to
run_test = refl

names_test : finished.download_files ≡ codes "o/x" ∷ []
unfolding nat_eq list_eq parse as_posix is_word path_eq include_sub_dirs launch log_of text_le sort
    run_tool run relative_to
names_test = refl

run_tool-logged_example :
    (files : List (PurePath × Text)) × (entry : List Text) × (user_cmd : List Text) × (u : Upload)
    × (content : Option Content) × (launch texts world tool args
        ≡ some (files, created entry user_cmd (log_of texts world tool user_cmd) u content))
    × (let log = exec_log (log_of texts world tool user_cmd) in
        (finished.log.command ≡ log.command)
        × (finished.log.in_files
            ≡ log.in_files
              ++ file_logs texts world
                  (logs_of world.digest world.host.resolve world.now world.contents files))
        × (finished.log.out_files ≡ log.out_files ++ (result ∷ []))
        × (finished.upload_files ≡ sort text_le (host_names texts world files)))
run_tool-logged_example =
    run_tool-logged texts world tool refl env (parse (codes "/w")) args (result ∷ []) exec_log
      finished (λ log. refl) (λ log. refl) refl run_test

-- The container puts a character out on each of its streams.
abbrev rounds : List Ready
rounds = (some (1, 104 ∷ []), none) ∷ (some (2, 33 ∷ []), none) ∷ (some (0, []), none) ∷ []

abbrev text : List ℕ
text = 104 ∷ 33 ∷ []

run_get_string-IsText_example : IsText texts (exits rounds 0) text
unfolding nat_eq list_eq parse as_posix is_word path_eq include_sub_dirs launch log_of text_le sort
    run_tool run relative_to run_get_string container_exec
run_get_string-IsText_example =
    run_get_string-IsText texts world env (parse (codes "/w")) tool false (exits rounds 0) args text
      refl refl

-- A start that fails
run_get_string_test :
    run_get_string texts world env
      (parse (codes "/w"))
      tool
      false
      (start_fails 127 (some (33 ∷ [])))
      args
    ≡ some (33 ∷ [])
unfolding nat_eq list_eq parse as_posix is_word path_eq include_sub_dirs launch log_of text_le sort
    run_tool run relative_to run_get_string container_exec
run_get_string_test = refl
