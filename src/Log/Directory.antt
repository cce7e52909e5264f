-- ===== src/Log/Directory.antt =====
-- `CommandLogWriter.write` and `CommandLogIndex` of cincan/command_log.py, on a directory of logs.
pub mod Laws
pub mod Index
use cincan_command.Prelude.{
  ℕ, zero, suc, Text, sort, Bool, true, false, Option, none, some, List, [], ◌∷◌, ◌++◌, ◌==◌,
  nat_eq, list_eq, if◌then◌else◌,
}
use cincan_command.Log.Json.{Json, TimeFormat, CommandLog, log_to_json, log_from_json}

-- A directory: the name and the JSON value of each file, and the directories in it.
mutual
  pub data Entries : Type 0 where
    end : Entries
    file : Text → Json → Entries → Entries
    dir : Text → Entries → Entries → Entries

-- `(directory / name).exists()`
unfoldable pub exists : Text → Entries → Bool
exists name end = false
exists name (file n j rest) = let later = exists name rest in if n == name then true else later
exists name (dir n sub rest) = let later = exists name rest in if n == name then true else later

module _ (T : TimeFormat) where
  open T use {le}

  -- `write`, over the names that the clock gives one after another. `none`: they are used up, and
  -- the loop goes on. The list's order means nothing: it is listed in that of `iterdir`.
  unfoldable pub write : CommandLog T → List Text → Entries → Option Entries
  write log [] logs = none
  write log (name ∷ names) logs =
      let again = write log names logs in
      if exists name logs then again else some (file name (log_to_json T log) logs)

  pub data Listing : Type 0 where
    logs : List (CommandLog T) → Listing
    -- an exception of `from_json`
    bad_entry : Listing
    -- deeper than the recursion that is allowed
    recursion_error : Listing

  more_logs : List (CommandLog T) → Listing → Listing
  more_logs ls (logs rest) = logs (ls ++ rest)
  more_logs ls bad_entry = bad_entry
  more_logs ls recursion_error = recursion_error

  -- One step of the loop: the logs of an entry, then the rest of the loop.
  after_file : Option (CommandLog T) → Listing → Listing
  after_file none rest = bad_entry
  after_file (some l) rest = more_logs (l ∷ []) rest

  after_dir : Listing → Listing → Listing
  after_dir (logs ls) rest = more_logs ls rest
  after_dir bad_entry rest = bad_entry
  after_dir recursion_error rest = recursion_error

  -- The loop over a directory, where `sub` is what the recursive call gives for a directory.
  unfoldable pub read_entries : (Entries → Listing) → Entries → Listing
  unfolding after_file after_dir more_logs
  read_entries sub end = logs []
  read_entries sub (file name j rest) = after_file (log_from_json T j) (read_entries sub rest)
  read_entries sub (dir name d rest) = after_dir (sub d) (read_entries sub rest)

  -- `__read_log(directory)`, within a depth of recursion. It walks over `self.log_directory`,
  -- whatever directory it is given.
  unfoldable pub read_log : ℕ → Entries → Entries → Listing
  unfolding read_entries
  read_log zero log_directory directory = recursion_error
  read_log (suc depth) log_directory directory =
      read_entries (read_log depth log_directory) log_directory

  -- `list_entries`. Python's sort keeps the order of equal entries, reversed or not.
  unfoldable pub list_entries : List (CommandLog T) → Bool → List (CommandLog T)
  unfolding sort
  list_entries array reverse =
      sort (λ a b. if reverse then le b.timestamp a.timestamp else le a.timestamp b.timestamp) array
