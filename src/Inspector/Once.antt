-- ===== src/Inspector/Once.antt =====
-- How often `fanin` and `fanout` of cincan/command_inspector.py go on from a file.
use cincan_command.Prelude.{
  ℕ, zero, suc, ◌+◌, ◌≤◌, Text, length, contains, contains-append, length-Distinct, Distinct, All,
  Bool, Bool-cases, true, List, [], ◌∷◌, ◌++◌, ◌||◌, ◌∙◌, nat_eq, list_eq, ◌≡◌, refl, inl, inr,
  arith,
}
use cincan_command.Path.{PurePath}
use cincan_command.Log.Json.{TimeFormat, FileLog, CommandLog}
use cincan_command.Inspector.{
  Files, FileDependency, file_dependency, Commands, no_command, command, Dependencies, no_file,
  dependency, Covered, Direction, Visit, touches, visit_files, visit_commands, fan, fanin, fanout,
  backwards, forwards, digest_for, file_check,
}

module _ (T : TimeFormat) where
  -- The number of files in a tree under which commands stand
  unfoldable mutual
    pub expanded : FileDependency T → ℕ
    expanded (file_dependency file digest out no_command) = 0
    expanded (file_dependency file digest out (command c d files next)) =
        suc (expanded_files files + expanded_commands next)

    pub expanded_commands : Commands T → ℕ
    expanded_commands no_command = 0
    expanded_commands (command c out files next) = expanded_files files + expanded_commands next

    pub expanded_files : Dependencies T → ℕ
    expanded_files no_file = 0
    expanded_files (dependency d ds) = expanded d + expanded_files ds

  -- The file entries of a log, on the side to which the tree grows
  abbrev pub entries : Direction T → List (CommandLog T) → List (FileLog T)
  entries dir [] = []
  entries dir (c ∷ cs) = dir.beyond c ++ entries dir cs

  module _ (fs : Files) (work_dir : PurePath) (log : List (CommandLog T)) (dir : Direction T) where
    abbrev key : PurePath → Text → Text
    key = file_check T fs work_dir log dir

    abbrev keys : List (FileLog T) → List Text
    keys [] = []
    keys (f ∷ files) = key f.path f.digest ∷ keys files

    keys-append :
        (xs ys : List (FileLog T)) (k : Text)
        → contains (keys (xs ++ ys)) k ≡ contains (keys xs ++ keys ys) k
    keys-append [] ys k = refl
    keys-append (f ∷ xs) ys k = ground (arith, keys-append xs ys k)

    length-keys : (xs : List (FileLog T)) → length (keys xs) ≡ length xs
    length-keys [] = refl
    length-keys (f ∷ xs) = omega (arith, length-keys xs)

    -- All that can be covered
    module _ (all_keys : List Text) where
      abbrev IsKnown : Text → Type 0
      IsKnown k = contains all_keys k ≡ true

      record IsCovered (covered : Covered T) : Type 0 where
        distinct : Distinct covered
        known : (k : Text) → contains covered k ≡ true → IsKnown k

      -- With as many more files expanded, the covered ones have become as many more at least.
      abbrev Covers : ℕ → Covered T → Covered T → Type 0
      Covers n covered covered' = IsCovered covered' × (n + length covered ≤ length covered')

      abbrev Good : Visit T → Type 0
      Good visit =
          (p : PurePath) (d : Text) (covered : Covered T)
          → IsKnown (key p d)
          → IsCovered covered
          → Covers (expanded (visit p d covered).0) covered (visit p d covered).1

      abbrev FilesKnown : List (FileLog T) → Type 0
      FilesKnown = All (λ f. IsKnown (key f.path f.digest))

      visit_files-Covers :
          (visit : Visit T) (files : List (FileLog T)) (covered : Covered T)
          → Good visit
          → FilesKnown files
          → IsCovered covered
          → let (ds, covered') = visit_files T visit files covered in
            Covers (expanded_files ds) covered covered'
      unfolding visit_files expanded
      visit_files-Covers visit [] covered good k c = (c, omega arith)
      visit_files-Covers visit (f ∷ files) covered good k c =
          let (c₁, n₁) = good f.path f.digest covered k.0 c in
          let (c₂, n₂) =
            visit_files-Covers visit files (visit f.path f.digest covered).1 good k.1 c₁ in
          (c₂, omega (arith, n₁, n₂))

      visit_commands-Covers :
          (visit : Visit T) (digest : Text) (cs : List (CommandLog T)) (covered : Covered T)
          → Good visit
          → All (λ c. FilesKnown (dir.beyond c)) cs
          → IsCovered covered
          → let (next, covered') = visit_commands T visit dir digest cs covered in
            Covers (expanded_commands next) covered covered'
      unfolding visit_commands expanded
      visit_commands-Covers visit digest [] covered good k c = (c, omega arith)
      visit_commands-Covers visit digest (x ∷ cs) covered good k c =
          elim (Bool-cases (touches T digest (dir.here x))) [
            | inr e ↦ rw e (visit_commands-Covers visit digest cs covered good k.1 c)
            | inl e ↦
                let covered₁ = (visit_files T visit (dir.beyond x) covered).1 in
                let (c₁, n₁) = visit_files-Covers visit (dir.beyond x) covered good k.0 c in
                let (c₂, n₂) = visit_commands-Covers visit digest cs covered₁ good k.1 c₁ in
                rw e (c₂, omega (arith, n₁, n₂))
          ]

      expanded_le :
          (p : PurePath) (d : Text) (out : Bool) (next : Commands T)
          → expanded (file_dependency p d out next) ≤ suc (expanded_commands next)
      unfolding expanded
      expanded_le p d out no_command = omega arith
      expanded_le p d out (command c o files next) = omega arith

      fan-Good :
          (depth : ℕ)
          → All (λ c. FilesKnown (dir.beyond c)) log
          → Good (fan T fs work_dir log dir depth)
      unfolding fan expanded
      fan-Good zero k file digest covered i c = (c, omega arith)
      fan-Good (suc depth) k file digest covered i c =
          let check = key file digest in
          elim (Bool-cases (contains covered check)) [
            | inl e ↦ rw e (c, omega arith)
            | inr e ↦
                let here : IsCovered (check ∷ covered) = record {
                  distinct = (e, c.distinct);
                  known = λ k' h. ground (arith, c.known k', i);
                } in
                let (c', n) =
                  visit_commands-Covers (fan T fs work_dir log dir depth)
                    (digest_for T fs work_dir log dir file digest) log (check ∷ covered)
                    (fan-Good depth k) k here in
                rw e (c', omega (arith, n, expanded_le))
          ]

    files-known :
        (all_keys : List Text) (xs : List (FileLog T))
        → ((k : Text) → contains (keys xs) k ≡ true → contains all_keys k ≡ true)
        → FilesKnown all_keys xs
    files-known all_keys [] h = tt
    files-known all_keys (f ∷ xs) h = (
      h (key f.path f.digest) (ground arith),
      files-known all_keys xs (λ k e. h k (ground (arith, e))),
    )

    entries-known :
        (all_keys : List Text) (cs : List (CommandLog T))
        → ((k : Text) → contains (keys (entries dir cs)) k ≡ true → contains all_keys k ≡ true)
        → All (λ c. FilesKnown all_keys (dir.beyond c)) cs
    entries-known all_keys [] h = tt
    entries-known all_keys (c ∷ cs) h =
        let split : (k : Text)
            → contains (keys (entries dir (c ∷ cs))) k
              ≡ (contains (keys (dir.beyond c)) k || contains (keys (entries dir cs)) k) =
          λ k.
            keys-append (dir.beyond c) (entries dir cs) k
            ∙ contains-append (keys (dir.beyond c)) (keys (entries dir cs)) k in
        (
          files-known all_keys (dir.beyond c) (λ k e. h k (ground (arith, e, split k))),
          entries-known all_keys cs (λ k e. h k (ground (arith, e, split k))),
        )

    fan-Once :
        (depth : ℕ) (file : PurePath) (digest : Text)
        → let (tree, covered) = fan T fs work_dir log dir depth file digest [] in
          Distinct covered
          × (expanded tree ≤ length covered)
          × (length covered ≤ suc (length (entries dir log)))
    fan-Once depth file digest =
        let all_keys : List Text = key file digest ∷ keys (entries dir log) in
        let (c, n) =
          fan-Good all_keys depth (entries-known all_keys log (λ k e. ground (arith, e))) file
            digest [] (ground arith) (record { distinct = tt; known = λ k e. cc }) in
        (
          c.distinct,
          omega (arith, n),
          omega (
            arith,
            length-Distinct (fan T fs work_dir log dir depth file digest []).1 all_keys c.distinct
                c.known,
            length-keys (entries dir log),
          ),
        )

  -- From a fresh start, in either direction and to any depth: no path and digest is covered twice,
  -- there are as many covered ones as files with commands under them at least, and no more than the
  -- file entries of the log, on the side to which the tree grows, and one.
  pub fan-expanded :
      (fs : Files) (work_dir : PurePath) (log : List (CommandLog T)) (depth : ℕ) (file : PurePath)
      (digest : Text)
      → let (behind, covered) = fanin T fs work_dir log depth file digest [] in
        let (ahead, covered') = fanout T fs work_dir log depth file digest [] in
        Distinct covered
        × (expanded behind ≤ length covered)
        × (length covered ≤ suc (length (entries (backwards T) log)))
        × Distinct covered'
        × (expanded ahead ≤ length covered')
        × (length covered' ≤ suc (length (entries (forwards T) log)))
  unfolding fanin fanout
  fan-expanded fs work_dir log depth file digest =
      let (d, n, l) = fan-Once fs work_dir log (backwards T) depth file digest in
      let (d', n', l') = fan-Once fs work_dir log (forwards T) depth file digest in
      (d, n, l, d', n', l')
