-- ===== src/Inspector/Shown.antt =====
-- How cincan/command_inspector.py writes a tree out: the `__str__` of `FileDependency` and
-- `CommandDependency`.
use cincan_command.Prelude.{
  ℕ, suc, ◌+◌, Text, codes, take, Bool, true, false, List, [], ◌∷◌, ◌++◌, ◌==◌, nat_eq, list_eq,
  if◌then◌else◌, ◌≡◌, refl, arith,
}
use cincan_command.Path.{PurePath, as_posix}
use cincan_command.Log.Json.{TimeFormat, CommandLog, quote_args}
use cincan_command.Inspector.{
  FileDependency, file_dependency, Commands, no_command, command, Dependencies, no_file, dependency,
}

-- `s.replace('\n', '\n    ')`
unfoldable pub indent : Text → Text
indent [] = []
indent (c ∷ v) = if c == 10 then 10 ∷ codes "    " ++ indent v else c ∷ indent v

-- `" ".join(args)`
spaced : List Text → Text
spaced [] = []
spaced (a ∷ []) = a
spaced (a ∷ b ∷ args) = a ++ codes " " ++ spaced (b ∷ args)

unfoldable pub file_string : PurePath → Text → Text
unfolding as_posix
file_string file digest =
    as_posix file ++ (if digest == [] then codes "/" else codes " " ++ take 16 digest)

abbrev pub file_arrow : Bool → Text
file_arrow out = 10 ∷ (if out then codes "|-- " else codes "^-- ")

abbrev pub command_arrow : Bool → Text
command_arrow out = 10 ∷ (if out then codes "|-->" else codes "^---")

module _ (T : TimeFormat) where
  -- `command_string`
  unfoldable pub command_string : CommandLog T → Text
  unfolding spaced quote_args
  command_string log = spaced (quote_args log.command)

  -- `str(dependency)`. What follows a node is joined by its arrow, which is also in front.
  unfoldable mutual
    unfolding indent file_string command_string

    pub show_file : FileDependency T → Text
    show_file (file_dependency file digest out next) =
        file_string file digest ++ show_commands (file_arrow out) next

    pub show_commands : Text → Commands T → Text
    show_commands arrow no_command = []
    show_commands arrow (command c out files next) =
        arrow
        ++ indent (command_string c ++ show_files (command_arrow out) files)
        ++ show_commands arrow next

    pub show_files : Text → Dependencies T → Text
    show_files arrow no_file = []
    show_files arrow (dependency d ds) = arrow ++ indent (show_file d) ++ show_files arrow ds

-- The line breaks of a text
abbrev pub breaks : Text → ℕ
breaks [] = 0
breaks (c ∷ v) = (if c == 10 then 1 else 0) + breaks v

breaks-append : (v w : Text) → breaks (v ++ w) ≡ breaks v + breaks w
breaks-append [] w = omega arith
breaks-append (c ∷ v) w = ground (arith, breaks-append v w)

breaks-indent : (v : Text) → breaks (indent v) ≡ breaks v
unfolding indent
breaks-indent [] = refl
breaks-indent (c ∷ v) = ground (arith, breaks-indent v)

module _ (T : TimeFormat) where
  -- The files and commands of a tree, and the line breaks within their own texts
  unfoldable mutual
    pub nodes : FileDependency T → ℕ
    nodes (file_dependency file digest out next) =
        suc (breaks (file_string file digest) + nodes_of_commands next)

    pub nodes_of_commands : Commands T → ℕ
    nodes_of_commands no_command = 0
    nodes_of_commands (command c out files next) =
        suc (breaks (command_string T c) + nodes_of_files files) + nodes_of_commands next

    pub nodes_of_files : Dependencies T → ℕ
    nodes_of_files no_file = 0
    nodes_of_files (dependency d ds) = nodes d + nodes_of_files ds

  -- An arrow stands on a new line.
  abbrev IsArrow : Text → Type 0
  IsArrow arrow = breaks arrow ≡ 1

  file_arrow-IsArrow : (out : Bool) → IsArrow (file_arrow out)
  unfolding nat_eq
  file_arrow-IsArrow true = refl
  file_arrow-IsArrow false = refl

  command_arrow-IsArrow : (out : Bool) → IsArrow (command_arrow out)
  unfolding nat_eq
  command_arrow-IsArrow true = refl
  command_arrow-IsArrow false = refl

  -- The line breaks of an arrow, an indented text and what follows
  breaks-branch :
      (arrow v w : Text)
      → IsArrow arrow
      → breaks (arrow ++ indent v ++ w) ≡ suc (breaks v + breaks w)
  breaks-branch arrow v w a =
      omega (
        arith,
        breaks-append (arrow ++ indent v) w,
        breaks-append arrow (indent v),
        breaks-indent v,
      )

  mutual
    unfolding show_file nodes

    breaks-show_file : (t : FileDependency T) → suc (breaks (show_file T t)) ≡ nodes t
    breaks-show_file (file_dependency file digest out next) = omega (
      arith,
      breaks-append (file_string file digest) (show_commands T (file_arrow out) next),
      breaks-show_commands (file_arrow out) next (file_arrow-IsArrow out),
    )

    breaks-show_commands :
        (arrow : Text) (next : Commands T)
        → IsArrow arrow
        → breaks (show_commands T arrow next) ≡ nodes_of_commands next
    breaks-show_commands arrow no_command a = refl
    breaks-show_commands arrow (command c out files next) a =
        let below : Text = show_files T (command_arrow out) files in
        omega (
          arith,
          breaks-branch arrow (command_string T c ++ below) (show_commands T arrow next) a,
          breaks-append (command_string T c) below,
          breaks-show_files (command_arrow out) files (command_arrow-IsArrow out),
          breaks-show_commands arrow next a,
        )

    breaks-show_files :
        (arrow : Text) (ds : Dependencies T)
        → IsArrow arrow
        → breaks (show_files T arrow ds) ≡ nodes_of_files ds
    breaks-show_files arrow no_file a = refl
    breaks-show_files arrow (dependency d ds) a = omega (
      arith,
      breaks-branch arrow (show_file T d) (show_files T arrow ds) a,
      breaks-show_file d,
      breaks-show_files arrow ds a,
    )

  -- A tree is written in a line for each of its files and commands, besides the lines that these
  -- break within their own texts.
  pub show_file-lines : (t : FileDependency T) → suc (breaks (show_file T t)) ≡ nodes t
  show_file-lines t = breaks-show_file t
