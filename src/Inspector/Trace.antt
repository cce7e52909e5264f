-- ===== src/Inspector/Trace.antt =====
-- What the tree of `fanin` and `fanout` of cincan/command_inspector.py shows.
use cincan_command.Prelude.{
  ℕ, zero, suc, Text, contains, Bool-cases, List, [], ◌∷◌, nat_eq, list_eq, ◌≡◌, refl, inl, inr,
  ◌⊎◌, keep,
}
use cincan_command.Path.{PurePath}
use cincan_command.Log.Json.{TimeFormat, FileLog, CommandLog}
use cincan_command.Inspector.{
  Files, FileDependency, file_dependency, Commands, no_command, command, Dependencies, no_file,
  dependency, Covered, Direction, Visit, touches, visit_files, visit_commands, fan, fanin, fanout,
  backwards, forwards, work_path, digest_for, file_check,
}

module _ (T : TimeFormat) where
  -- The commands that hang under a file
  pub commands_of : Commands T → List (CommandLog T)
  commands_of no_command = []
  commands_of (command c out files next) = c ∷ commands_of next

  module _ (fs : Files) (work_dir : PurePath) (log : List (CommandLog T)) (dir : Direction T) where
    -- A node is about a file: its path and its digest.
    abbrev pub About : PurePath → Text → FileDependency T → Type 0
    About path digest (file_dependency p d out next) =
        (p ≡ work_path fs work_dir path) × (d ≡ digest_for T fs work_dir log dir path digest)

    -- The nodes below a command are about its files, in their order.
    abbrev pub Roots : List (FileLog T) → Dependencies T → Type 0
    Roots [] no_file = Unit
    Roots [] (dependency d ds) = ⊥
    Roots (f ∷ files) no_file = ⊥
    Roots (f ∷ files) (dependency d ds) = About f.path f.digest d × Roots files ds

    -- Under each file of the tree stands no command, or all commands of the log that touch its
    -- digest, in their order. No command stands deeper than the depth.
    mutual
      pub IsTraced : FileDependency T → ℕ → Type 0
      IsTraced (file_dependency file digest out next) depth =
          ((commands_of next ≡ [])
            ⊎ (commands_of next ≡ keep (λ c. touches T digest (dir.here c)) log))
          × Below next depth

      pub Below : Commands T → ℕ → Type 0
      Below no_command depth = Unit
      Below (command c out files next) zero = ⊥
      Below (command c out files next) (suc depth) =
          (out ≡ dir.out)
          × Roots (dir.beyond c) files
          × AllTraced files depth
          × Below next (suc depth)

      pub AllTraced : Dependencies T → ℕ → Type 0
      AllTraced no_file depth = Unit
      AllTraced (dependency d ds) depth = IsTraced d depth × AllTraced ds depth

    visit_files-Traced :
        (visit : Visit T) (depth : ℕ)
        → ((p : PurePath) (d : Text) (covered : Covered T)
            → About p d (visit p d covered).0 × IsTraced (visit p d covered).0 depth)
        → (files : List (FileLog T)) (covered : Covered T)
        → let ds = (visit_files T visit files covered).0 in Roots files ds × AllTraced ds depth
    unfolding visit_files IsTraced
    visit_files-Traced visit depth h [] covered = (tt, tt)
    visit_files-Traced visit depth h (f ∷ files) covered =
        let (d, covered') = visit f.path f.digest covered in
        let (about, traced) = h f.path f.digest covered in
        let (roots, all) = visit_files-Traced visit depth h files covered' in
        ((about, roots), (traced, all))

    pub visit_commands-Traced :
        (visit : Visit T) (depth : ℕ)
        → ((p : PurePath) (d : Text) (covered : Covered T)
            → About p d (visit p d covered).0 × IsTraced (visit p d covered).0 depth)
        → (digest : Text) (cs : List (CommandLog T)) (covered : Covered T)
        → let next = (visit_commands T visit dir digest cs covered).0 in
          (commands_of next ≡ keep (λ c. touches T digest (dir.here c)) cs) × Below next (suc depth)
    unfolding visit_commands IsTraced commands_of
    visit_commands-Traced visit depth h digest [] covered = (refl, tt)
    visit_commands-Traced visit depth h digest (c ∷ cs) covered =
        elim (Bool-cases (touches T digest (dir.here c))) [
          | inr e ↦ rw e (visit_commands-Traced visit depth h digest cs covered)
          | inl e ↦
              let covered' = (visit_files T visit (dir.beyond c) covered).1 in
              let (same, below) = visit_commands-Traced visit depth h digest cs covered' in
              let (roots, all) = visit_files-Traced visit depth h (dir.beyond c) covered in
              rw e (rw same refl, (refl, roots, all, below))
        ]

    pub fan-Traced :
        (depth : ℕ) (file : PurePath) (digest : Text) (covered : Covered T)
        → let tree = (fan T fs work_dir log dir depth file digest covered).0 in
          About file digest tree × IsTraced tree depth
    unfolding fan IsTraced commands_of
    fan-Traced zero file digest covered = ((refl, refl), (inl refl, tt))
    fan-Traced (suc depth) file digest covered =
        let check = file_check T fs work_dir log dir file digest in
        let (same, below) =
          visit_commands-Traced (fan T fs work_dir log dir depth) depth (fan-Traced depth)
            (digest_for T fs work_dir log dir file digest) log (check ∷ covered) in
        elim (Bool-cases (contains covered check)) [
          | inl e ↦ rw e ((refl, refl), (inl refl, tt))
          | inr e ↦ rw e ((refl, refl), (inr same, below))
        ]

  -- The tree of a file in either direction is about that file. Under each file in it stand no
  -- command or, in order, all commands of the log with an output (or, forwards, an input) of its
  -- digest; under each command its inputs (or outputs), in order; and no command stands deeper
  -- than the given depth.
  pub fan-IsTraced :
      (fs : Files) (work_dir : PurePath) (log : List (CommandLog T)) (depth : ℕ) (file : PurePath)
      (digest : Text) (covered : Covered T)
      → let behind = (fanin T fs work_dir log depth file digest covered).0 in
        let ahead = (fanout T fs work_dir log depth file digest covered).0 in
        About fs work_dir log (backwards T) file digest behind
        × IsTraced fs work_dir log (backwards T) behind depth
        × About fs work_dir log (forwards T) file digest ahead
        × IsTraced fs work_dir log (forwards T) ahead depth
  unfolding fanin fanout
  fan-IsTraced fs work_dir log depth file digest covered =
      let (about, traced) = fan-Traced fs work_dir log (backwards T) depth file digest covered in
      let (about', traced') = fan-Traced fs work_dir log (forwards T) depth file digest covered in
      (about, traced, about', traced')
