-- ===== src/Tests/Logs.antt =====
-- Logs and the inspector.
use cincan_command.Prelude.{
  ℕ, All, Text, codes, true, some, none, List, [], ◌∷◌, ◌++◌, ◌≡◌, ◌≢◌, inl, refl, nat_eq, list_eq,
  arith, starts_with, suc, ◌≤◌, length, Distinct,
}
use mathlib.Core.List.{Permᴰ}
use cincan_command.Path.{PurePath, relative_to, parse, as_posix}
use cincan_command.Path.RoundTrip.{IsPart}
use cincan_command.Log.Json.{FileLog, CommandLog, log_to_json, log_from_json}
use cincan_command.Log.Json.RoundTrip.{HasPath, restored, log_from_json-log_to_json}
use cincan_command.Log.Directory.{
  Entries, end, file, dir, exists, recursion_error, logs, read_log, list_entries,
}
use cincan_command.Log.Directory.Index.{IsFlat, Relisted, empty, same_first, swapped}
use cincan_command.Log.Directory.Laws.{read_log-recursion}
use cincan_command.Inspector.Runs.{Stands, top, log_run-shown}
use cincan_command.Inspector.{Files, work_path, backwards, forwards, fanin, fanout, FileDependency}
use cincan_command.Inspector.Trace.{About, IsTraced, fan-IsTraced}
use cincan_command.Log.Store.{Home, shared_logs, log_base, directory_name, read_index, log_run}
use cincan_command.Log.Store.Laws.{read_index-log_run}
use cincan_command.Inspector.Once.{expanded, entries, fan-expanded}
use cincan_command.Inspector.Shown.{
  file_string, indent, command_string, breaks, nodes, show_file, show_file-lines,
}
use cincan_command.Tests.Runs.{texts}

abbrev in_file : FileLog texts
in_file = record {
  path = record { root = []; parts = codes "a" ∷ [] };
  digest = codes "d1";
  timestamp = some (codes "noon");
}

abbrev out_file : FileLog texts
out_file = record {
  path = record { root = []; parts = codes "b" ∷ [] };
  digest = codes "d2";
  timestamp = none;
}

abbrev entry : CommandLog texts
entry = record {
  command = codes "tool" ∷ codes "a" ∷ [];
  timestamp = codes "noon";
  exit_code = 1;
  stdin = [];
  stdout = 104 ∷ [];
  stderr = [];
  in_files = in_file ∷ [];
  out_files = out_file ∷ [];
}

part : (c : ℕ) → c ≢ b'.' → c ≢ b'/' → IsPart (c ∷ [])
part c n m = record { ne_nil = λ e. ground arith; ne_dot = λ e. ground arith; free = ground arith }

in-HasPath : All (HasPath texts) (in_file ∷ [])
in-HasPath = (
  record { root_of_path = inl refl; all_parts = (part b'a' (omega arith) (omega arith), tt) },
  tt,
)

out-HasPath : All (HasPath texts) (out_file ∷ [])
out-HasPath = (
  record { root_of_path = inl refl; all_parts = (part b'b' (omega arith) (omega arith), tt) },
  tt,
)

entry_reads : log_from_json texts (log_to_json texts entry) ≢ none
entry_reads e = cc (log_from_json-log_to_json texts entry in-HasPath out-HasPath)

abbrev old_logs : Entries
old_logs = file (codes "t0") (log_to_json texts entry) (dir (codes "sub") end end)

abbrev clock : List Text
clock = codes "t0" ∷ codes "t1" ∷ []

read_log-recursion_example : read_log texts 5 old_logs old_logs ≡ recursion_error
read_log-recursion_example = read_log-recursion texts 5 old_logs old_logs (entry_reads, tt)

abbrev one_log : Entries
one_log = file (codes "t0") (log_to_json texts entry) end

one_log-reads : read_log texts 1 one_log one_log ≡ logs (restored texts entry ∷ [])
unfolding read_log
one_log-reads = rw (log_from_json-log_to_json texts entry in-HasPath out-HasPath) refl

abbrev host : Files
host = record { resolve = λ p. p; hash_of = λ p. codes "d2" }

abbrev b_path : PurePath
b_path = record { root = []; parts = codes "b" ∷ [] }

fan-IsTraced_example :
    let behind = (fanin texts host b_path (entry ∷ []) 2 b_path [] []).0 in
    let ahead = (fanout texts host b_path (entry ∷ []) 2 b_path [] []).0 in
    About texts host b_path (entry ∷ []) (backwards texts) b_path [] behind
    × IsTraced texts host b_path (entry ∷ []) (backwards texts) behind 2
    × About texts host b_path (entry ∷ []) (forwards texts) b_path [] ahead
    × IsTraced texts host b_path (entry ∷ []) (forwards texts) ahead 2
fan-IsTraced_example = fan-IsTraced texts host b_path (entry ∷ []) 2 b_path [] []

fan-expanded_example :
    let (behind, covered) = fanin texts host b_path (entry ∷ []) 2 b_path [] [] in
    let (ahead, covered') = fanout texts host b_path (entry ∷ []) 2 b_path [] [] in
    Distinct covered
    × (expanded texts behind ≤ length covered)
    × (length covered ≤ suc (length (entries texts (backwards texts) (entry ∷ []))))
    × Distinct covered'
    × (expanded texts ahead ≤ length covered')
    × (length covered' ≤ suc (length (entries texts (forwards texts) (entry ∷ []))))
fan-expanded_example = fan-expanded texts host b_path (entry ∷ []) 2 b_path []

abbrev behind_b : FileDependency texts
behind_b = (fanin texts host (parse (codes "/w")) (entry ∷ []) 2 b_path [] []).0

expanded_test : expanded texts behind_b ≡ 1
unfolding expanded fanin work_path relative_to as_posix starts_with parse nat_eq list_eq
expanded_test = refl

show_file_test :
    show_file texts behind_b ≡ codes "b d2" ++ 10 ∷ codes "^-- tool a" ++ 10 ∷ codes "    ^---a d1"
unfolding show_file expanded fanin work_path relative_to starts_with parse nat_eq list_eq as_posix
    file_string indent command_string
show_file_test = refl

show_file-lines_example : suc (breaks (show_file texts behind_b)) ≡ nodes texts behind_b
show_file-lines_example = show_file-lines texts behind_b

abbrev home : PurePath
home = parse (codes "/home/u")

-- The log of a run that exits with 0
abbrev ok_entry : CommandLog texts
ok_entry = record entry { exit_code = 0 }

-- A home with a directory ".cincan" and an older log in every place
abbrev old_home : Home
old_home = record { has_cincan = true; uid = none; logs_at = λ p. one_log }

abbrev new_home : Home
new_home = record old_home { uid = some (codes "u1") }

-- A listing with the first two files in the other order
abbrev iterdir : Entries → Entries
iterdir (file n j (file n' j' d)) = file n' j' (file n j d)
iterdir d = d

iterdir-Relisted : (d : Entries) → IsFlat d → Relisted (iterdir d) d
iterdir-Relisted end h = empty
iterdir-Relisted (file n j end) h = same_first n j empty
iterdir-Relisted (file n j (file n' j' d)) h = swapped n' n j' j d
iterdir-Relisted (file n j (dir n' d rest)) h = absurd h
iterdir-Relisted (dir n d rest) h = absurd h

read_index-log_run_example :
    (h' : Home) × (h'' : Home) × (ls' : List (CommandLog texts)) × (log_run home texts true
        (codes "u1")
        ok_entry
        clock
        old_home
      ≡ some h')
    × (read_index home texts none (codes "u2") 1 iterdir h' ≡ some (logs ls', h''))
    × Permᴰ ls' (restored texts ok_entry ∷ restored texts entry ∷ [])
unfolding exists nat_eq list_eq log_base directory_name
read_index-log_run_example =
    read_index-log_run home texts (codes "u1") (codes "u2") ok_entry clock 0 iterdir old_home
      new_home (shared_logs home (codes "u1")) (restored texts entry ∷ []) iterdir-Relisted refl
      refl tt in-HasPath out-HasPath refl one_log-reads

log_run-shown_example :
    (h' : Home) × (h'' : Home) × (ls' : List (CommandLog texts)) × (log_run home texts true
        (codes "u1")
        ok_entry
        clock
        old_home
      ≡ some h')
    × (read_index home texts none (codes "u2") 1 iterdir h' ≡ some (logs ls', h''))
    × Stands
        (restored texts ok_entry)
        (top texts (fanin texts host home (list_entries texts ls' true) 3 b_path [] []).0)
unfolding exists nat_eq list_eq log_base directory_name
log_run-shown_example =
    log_run-shown texts home (codes "u1") (codes "u2") ok_entry clock 0 iterdir old_home new_home
      (shared_logs home (codes "u1")) (restored texts entry ∷ []) host home 2 b_path
      iterdir-Relisted refl refl tt in-HasPath out-HasPath refl one_log-reads refl
