-- ===== src/Log/Store.antt =====
-- Where cincan/command_log.py keeps the logs: `CommandLogBase`, and what `CommandLogWriter` and
-- `CommandLogIndex` do in the directory that it finds.
pub mod Laws
use cincan_command.Prelude.{
  ℕ, Text, codes, Bool, true, false, not, Option, none, some, List, [], ◌∷◌, ◌++◌, ◌==◌, nat_eq,
  list_eq, if◌then◌else◌,
}
use cincan_command.Path.{PurePath, path_eq, parse, join_path}
use cincan_command.Tar.Download.{◌>>=◌}
use cincan_command.Log.Json.{TimeFormat, CommandLog}
use cincan_command.Log.Directory.{Entries, end, write, Listing, read_log}
use cincan_command.Main.{finish_run}

-- The user's home directory, as far as logs are concerned
pub record Home : Type 0 where
  -- whether there is a directory ".cincan"
  pub has_cincan : Bool
  -- the content of ".cincan/uid.txt", if there is one
  pub uid : Option Text
  -- the directories of logs; one that is not there has no entries
  pub logs_at : PurePath → Entries

abbrev pub put_logs : PurePath → Entries → Home → Home
put_logs dir d h = record h { logs_at = λ p. if p == dir then d else h.logs_at p }

-- The parent of a directory that is made is made with it.
abbrev make_cincan : Home → Home
make_cincan h = record h { has_cincan = true }

module _ (home : PurePath) where
  -- `home / '.cincan' / 'shared' / name / 'logs'`
  unfoldable pub shared_logs : Text → PurePath
  unfolding join_path parse
  shared_logs name =
      join_path (join_path (join_path home (parse (codes ".cincan/shared"))) (parse name))
        (parse (codes "logs"))

  -- `uid.txt` is read, or written with the new name. It cannot be written without ".cincan", for
  -- which `none` stands.
  unfoldable pub directory_name : Text → Home → Option (Text × Home)
  directory_name uuid h = elim h.uid [
    | some name ↦ some (name, h)
    | none ↦ if h.has_cincan then some (uuid, record h { uid = some uuid }) else none
  ]

  -- `CommandLogBase(log_directory)` with a UUID that is at hand: the directory, which is made
  unfoldable pub log_base : Option PurePath → Text → Home → Option (PurePath × Home)
  unfolding directory_name shared_logs
  log_base (some dir) uuid h = do (name, h') ← directory_name uuid h; some (dir, h')
  log_base none uuid h = do
    (name, h') ← directory_name uuid h
    some (shared_logs name, make_cincan h')

  module _ (T : TimeFormat) where
    -- `CommandLogWriter(log_directory).write(log)`, over the names that the clock gives
    unfoldable pub write_entry :
        Option PurePath → Text → CommandLog T → List Text → Home → Option Home
    write_entry log_directory uuid log names h = do
      (dir, h') ← log_base log_directory uuid h
      d ← write T log names (h'.logs_at dir)
      some (put_logs dir d h')

    -- `CommandLogIndex(log_directory).array`, within a depth of recursion. The root from which it
    -- means to read is the parent of the directory, and its entries do not matter. The order in
    -- which the directory is listed is that of `iterdir`.
    unfoldable pub read_index :
        Option PurePath → Text → ℕ → (Entries → Entries) → Home → Option (Listing T × Home)
    read_index log_directory uuid depth iterdir h = do
      (dir, h') ← log_base log_directory uuid h
      some (read_log T depth (iterdir (h'.logs_at dir)) end, h')

    -- The end of `main`, up to its output
    unfoldable pub log_run : Bool → Text → CommandLog T → List Text → Home → Option Home
    unfolding finish_run
    log_run command_log uuid log names h =
        if (finish_run command_log log).0 then write_entry none uuid log names h else some h
