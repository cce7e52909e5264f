-- ===== src/Main/Shell.antt =====
-- The subcommand "shell" of cincan/frontend.py, from the options to the container's command.
use cincan_command.Prelude.{
  Text, Bool, Bool-cases, true, false, some, List, [], ◌∷◌, ◌==◌, nat_eq, list_eq, ◌≡◌, ◌≢◌, refl,
  arith, inl, inr,
}
use cincan_command.Frontend.{ImageConfig, container, start_command, detect_shell}
use cincan_command.Main.{
  Args, shell, Tool, runs, or_empty, tool_of, both_inputs, start_tool, with_tool, action_of,
}

record IsShell (args : Args) (t : Tool) : Type 0 where
  shell_given : t.shell ≡ args.shell
  no_entrypoint : t.entrypoint ≡ some []
  tty : t.is_tty ≡ true
  stdin : t.read_stdin ≡ true

with_tool-IsShell :
    (args : Args) (tool : List Text) (t : Tool) (rest : List Text)
    → with_tool shell args tool ≡ runs t rest
    → IsShell args t
unfolding with_tool start_tool tool_of
with_tool-IsShell args [] t rest h = cc
with_tool-IsShell args (name ∷ args') t rest h =
    let t' : Tool = tool_of shell name args in
    elim (Bool-cases (both_inputs t'.input_tar t'.input_filters)) [
      | inl e ↦ let h' = rw e at h in cc h'
      | inr e ↦
          let h' : runs t' args' ≡ runs t rest = rw e at h in
          let e' : t' ≡ t = cc h' in
          rw (← e') (record { shell_given = refl; no_entrypoint = refl; tty = refl; stdin = refl })
    ]

action_of-IsShell :
    (stable_tag : Text) (args : Args) (t : Tool) (rest : List Text)
    → action_of stable_tag shell args ≡ runs t rest
    → IsShell args t
unfolding action_of
action_of-IsShell stable_tag args t rest h = elim (Bool-cases args.version) [
  | inl e ↦ let h' = rw e at h in cc h'
  | inr e ↦ with_tool-IsShell args args.tool t rest (rw e at h)
]

start_command-shell :
    (has : Text → Bool) (sh : Text) (default_shells : List Text) (config : ImageConfig)
    (command entry user_cmd : List Text)
    → sh ≢ []
    → start_command has sh default_shells [] config command ≡ container entry user_cmd
    → (entry ≡ detect_shell has sh default_shells ∷ []) × (user_cmd ≡ [])
unfolding start_command
start_command-shell has sh default_shells config command entry user_cmd n h =
    let s : (sh == []) ≡ false = ground arith in
    elim (Bool-cases (detect_shell has sh default_shells == [])) [
      | inl e ↦ let h' = rw (s, e) at h in cc h'
      | inr e ↦
          let h' : container (detect_shell has sh default_shells ∷ []) []
              ≡ container entry user_cmd =
            rw (s, e) at h in
          (cc h', cc h')
    ]

-- With the subcommand "shell" and a shell to look for, a tool that is run has a terminal and reads
-- its input, and its container, if one is created, gets the detected shell as its only entry point
-- and no command, whatever entry point, arguments and options are given.
pub action_of-shell :
    (stable_tag : Text) (args : Args) (t : Tool) (rest : List Text) (has : Text → Bool)
    (default_shells : List Text) (config : ImageConfig) (entry user_cmd : List Text) (sh : Text)
    → sh ≢ []
    → args.shell ≡ some sh
    → action_of stable_tag shell args ≡ runs t rest
    → start_command has (or_empty t.shell) default_shells (or_empty t.entrypoint) config rest
      ≡ container entry user_cmd
    → (t.is_tty ≡ true)
      × (t.read_stdin ≡ true)
      × (entry ≡ detect_shell has sh default_shells ∷ [])
      × (user_cmd ≡ [])
action_of-shell stable_tag args t rest has default_shells config entry user_cmd sh n e a c =
    let f = action_of-IsShell stable_tag args t rest a in
    let sh_of : or_empty t.shell ≡ sh = rw (f.shell_given, e) refl in
    let entry_of : or_empty t.entrypoint ≡ [] = rw f.no_entrypoint refl in
    let c' : start_command has sh default_shells [] config rest ≡ container entry user_cmd =
      rw (sh_of, entry_of) at c in
    let (g, k) = start_command-shell has sh default_shells config rest entry user_cmd n c' in
    (f.tty, f.stdin, g, k)
