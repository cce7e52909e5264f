-- ===== src/Frontend/Laws.antt =====
-- What the decisions of `ToolImage` in cincan/frontend.py promise.
use cincan_command.Prelude.{
  Text, codes, contains, any, starts_with, starts_with-append, Bool, true, Bool-cases, List, [],
  ◌∷◌, ◌++◌, nat_eq, list_eq, ◌≡◌, ◌⊎◌, inl, inr, arith, append_assoc,
}
use cincan_command.Frontend.{
  basename, namespace_conversion, converted, first_shell, detect_shell, ImageConfig, container,
  start_command,
}

converted-prefix :
    (full_prefix img : Text)
    → starts_with (converted full_prefix img) (full_prefix ++ codes "/") ≡ true
converted-prefix full_prefix img =
    rw (← append_assoc full_prefix (codes "/") (basename img))
      (starts_with-append (full_prefix ++ codes "/") (basename img))

-- A converted name is not converted again.
pub namespace_conversion-twice :
    (docker_hub : Bool) (full_prefix name img : Text)
    → let (name', img') = namespace_conversion docker_hub full_prefix name img in
      namespace_conversion docker_hub full_prefix name' img' ≡ (name', img')
unfolding namespace_conversion
namespace_conversion-twice docker_hub full_prefix name img =
    ground (arith, converted-prefix full_prefix img)

first_shell_lem :
    (has : Text → Bool) (shells : List Text)
    → (any has shells ≡ true)
    → (has (first_shell has shells) ≡ true) × (contains shells (first_shell has shells) ≡ true)
unfolding first_shell
first_shell_lem has [] h = cc
first_shell_lem has (s ∷ shells) h = ground (arith, first_shell_lem has shells)

any-contains :
    (has : Text → Bool) (shells : List Text) (s : Text)
    → contains shells s ≡ true
    → has s ≡ true
    → any has shells ≡ true
any-contains has [] s c h = ground arith
any-contains has (x ∷ shells) s c h = ground (arith, any-contains has shells s)

-- If the image has the given shell or a configured one, a shell is found, and the image has it.
pub detect_shell-has :
    (has : Text → Bool) (shell : Text) (default_shells : List Text)
    → any has (shell ∷ default_shells) ≡ true
    → has (detect_shell has shell default_shells) ≡ true
unfolding detect_shell
detect_shell-has has shell default_shells h = elim (Bool-cases (contains default_shells shell)) [
  | inl c ↦
      rw c
        (first_shell_lem has default_shells
          (ground (arith, any-contains has default_shells shell c))).0
  | inr c ↦ rw c (first_shell_lem has (shell ∷ default_shells) h).0
]

-- A shell that is among the configured ones has no precedence: the first of these is taken if the
-- image has it, whichever of them is asked for.
pub detect_shell-ignored :
    (has : Text → Bool) (shell first : Text) (rest : List Text)
    → contains (first ∷ rest) shell ≡ true
    → has first ≡ true
    → detect_shell has shell (first ∷ rest) ≡ first
unfolding detect_shell first_shell
detect_shell-ignored has shell first rest listed h = ground arith

-- A container that is created gets no command, or the given one, or the image's default command,
-- and the last only if no shell is asked for and neither entry point nor command is given.
pub start_command-cmd :
    (has : Text → Bool) (shell : Text) (default_shells : List Text) (entrypoint : Text)
    (config : ImageConfig) (command entry user_cmd : List Text)
    → start_command has shell default_shells entrypoint config command ≡ container entry user_cmd
    → (user_cmd ≡ [])
      ⊎ (user_cmd ≡ command)
      ⊎ ((shell ≡ []) × (entrypoint ≡ []) × (command ≡ []) × (user_cmd ≡ config.cmd))
unfolding start_command
start_command-cmd has shell default_shells entrypoint config command entry user_cmd h = ground arith
