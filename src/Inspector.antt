-- ===== src/Inspector.antt =====
-- `CommandInspector` of cincan/command_inspector.py: the tree of commands behind or ahead of a file.
pub mod Trace
pub mod Once
pub mod Hash
pub mod Runs
pub mod Shown
use cincan_command.Prelude.{
  ℕ, zero, suc, Text, codes, contains, any, Bool, true, false, Option, none, some, List, [], ◌∷◌,
  ◌++◌, ◌==◌, nat_eq, list_eq, if◌then◌else◌, starts_with,
}
use cincan_command.Path.{PurePath, as_posix, relative_to}
use cincan_command.Log.Json.{TimeFormat, FileLog, CommandLog}

-- What the inspector asks of the file system: `path.resolve()` and `hash_of`.
pub record Files : Type 0 where
  pub resolve : PurePath → PurePath
  pub hash_of : PurePath → Text

-- `__work_path`
unfoldable pub work_path : Files → PurePath → PurePath → PurePath
unfolding starts_with
work_path fs work_dir path =
    if starts_with (as_posix path) (codes "/dev/")
    then path
    else elim (relative_to path work_dir) [ none ↦ fs.resolve path | some p ↦ p ]

module _ (T : TimeFormat) where
  -- `FileDependency` and `CommandDependency`, with their lists `next`
  mutual
    pub data FileDependency : Type 0 where
      file_dependency : PurePath → Text → Bool → Commands → FileDependency

    pub data Commands : Type 0 where
      no_command : Commands
      command : CommandLog T → Bool → Dependencies → Commands → Commands

    pub data Dependencies : Type 0 where
      no_file : Dependencies
      dependency : FileDependency → Dependencies → Dependencies

  abbrev pub Covered : Type 0
  Covered = List Text

  -- The files of a command whose digest makes it a neighbour, and those to go on to.
  pub record Direction : Type 0 where
    pub out : Bool
    pub here : CommandLog T → List (FileLog T)
    pub beyond : CommandLog T → List (FileLog T)

  abbrev pub backwards : Direction
  backwards = record { out = false; here = λ c. c.out_files; beyond = λ c. c.in_files }

  abbrev pub forwards : Direction
  forwards = record { out = true; here = λ c. c.in_files; beyond = λ c. c.out_files }

  abbrev pub Visit : Type 0
  Visit = PurePath → Text → Covered → FileDependency × Covered

  -- The inner loop, which visits the files of a command. The set of covered files is shared.
  unfoldable pub visit_files : Visit → List (FileLog T) → Covered → Dependencies × Covered
  visit_files visit [] covered = (no_file, covered)
  visit_files visit (f ∷ fs) covered =
      let (d, covered') = visit f.path f.digest covered in
      let (ds, covered'') = visit_files visit fs covered' in (dependency d ds, covered'')

  abbrev pub touches : Text → List (FileLog T) → Bool
  touches digest = any (λ f. f.digest == digest)

  -- The loop over the log
  unfoldable pub visit_commands :
      Visit → Direction → Text → List (CommandLog T) → Covered → Commands × Covered
  unfolding visit_files
  visit_commands visit dir digest [] covered = (no_command, covered)
  visit_commands visit dir digest (c ∷ cs) covered =
      let skipped = visit_commands visit dir digest cs covered in
      let (files, covered') = visit_files visit (dir.beyond c) covered in
      let (rest, covered'') = visit_commands visit dir digest cs covered' in
      if touches digest (dir.here c) then (command c dir.out files rest, covered'') else skipped

  module _ (fs : Files) (work_dir : PurePath) (log : List (CommandLog T)) (dir : Direction) where
    abbrev pub digest_for : PurePath → Text → Text
    digest_for file digest = if digest == [] then fs.hash_of file else digest

    abbrev pub file_check : PurePath → Text → Text
    file_check file digest = as_posix file ++ (codes ":" ++ digest_for file digest)

    leaf : PurePath → Text → Commands → FileDependency
    leaf file digest next =
        file_dependency (work_path fs work_dir file) (digest_for file digest) dir.out next

    -- What `fanin` and `fanout` share, which differ in the direction alone. `log` is
    -- `self.log.list_entries(reverse=True)`, and no digest is the empty one.
    unfoldable pub fan : ℕ → PurePath → Text → Covered → FileDependency × Covered
    unfolding leaf visit_commands
    fan zero file digest covered = (leaf file digest no_command, covered)
    fan (suc depth) file digest covered =
        let check = file_check file digest in
        let (next, covered') =
          visit_commands (fan depth) dir (digest_for file digest) log (check ∷ covered) in
        if contains covered check
        then (leaf file digest no_command, covered)
        else (leaf file digest next, covered')

  -- `fanin` and `fanout`
  unfoldable pub fanin :
      Files
      → PurePath
      → List (CommandLog T)
      → ℕ
      → PurePath
      → Text
      → Covered
      → FileDependency × Covered
  unfolding fan
  fanin fs work_dir log = fan fs work_dir log backwards

  unfoldable pub fanout :
      Files
      → PurePath
      → List (CommandLog T)
      → ℕ
      → PurePath
      → Text
      → Covered
      → FileDependency × Covered
  unfolding fan
  fanout fs work_dir log = fan fs work_dir log forwards
