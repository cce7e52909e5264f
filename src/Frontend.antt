-- ===== src/Frontend.antt =====
-- Decisions of `ToolImage` in cincan/frontend.py: the image's name, the shell and the command that
-- the container is created with.
pub mod Laws
pub mod Image
pub mod Probe
use cincan_command.Prelude.{
  Text, codes, contains, starts_with, split, last, Bool, true, false, not, ◌&&◌, ◌||◌, Option, none,
  some, List, [], ◌∷◌, ◌++◌, ◌==◌, nat_eq, list_eq, if◌then◌else◌,
}

-- `os.path.basename`: what stands behind the last slash
unfoldable pub basename : Text → Text
unfolding split
basename v = let (s, rest) = split b'/' v in last s rest

abbrev converted : Text → Text → Text
converted full_prefix img = full_prefix ++ (codes "/" ++ basename img)

-- `if name and name.startswith('cincan/')`
convert_name : Text → Text → Text → Text
convert_name full_prefix img name =
    if starts_with name (codes "cincan/") then converted full_prefix img else name

-- `namespace_conversion`, for a default remote that is Docker Hub or not. An absent name or image
-- is the empty one, which the code tells from none nowhere here.
unfoldable pub namespace_conversion : Bool → Text → Text → Text → Text × Text
unfolding convert_name basename starts_with
namespace_conversion docker_hub full_prefix name img =
    if docker_hub || img == [] || starts_with img (full_prefix ++ codes "/")
    then (name, img)
    else if starts_with img (codes "cincan/")
    then (convert_name full_prefix img name, converted full_prefix img)
    else (name, img)

first_shell : (Text → Bool) → List Text → Text
first_shell has [] = []
first_shell has (s ∷ rest) = let later = first_shell has rest in if has s then s else later

-- `_detect_shell`, where `has` tells whether the image has a file. A shell that is not among the
-- configured ones is put in front of them.
unfoldable pub detect_shell : (Text → Bool) → Text → List Text → Text
unfolding first_shell
detect_shell has shell default_shells =
    first_shell has
      (if contains default_shells shell then default_shells else shell ∷ default_shells)

-- What the program reads of the image: `Entrypoint` and `Cmd`, where None is the empty list.
pub record ImageConfig : Type 0 where
  pub entrypoint : List Text
  pub cmd : List Text

pub data Start : Type 0 where
  -- the entry point and the command of the new container
  container : List Text → List Text → Start
  -- `sys.exit(1)`: no shell
  exits : Start

choose : Text → Text → ImageConfig → List Text → Start
choose shell entrypoint config command =
    container (if entrypoint == [] then config.entrypoint else entrypoint ∷ []) (
      if not (shell == [])
      then []
      else if not (command == [])
      then command
      else if config.cmd == [] || not (entrypoint == [])
      then []
      else config.cmd)

-- The entry point and the command that `__create_container` finds out. `shell` is empty but for the
-- subcommand of that name, and `entrypoint` if none is given.
unfoldable pub start_command :
    (Text → Bool) → Text → List Text → Text → ImageConfig → List Text → Start
unfolding choose detect_shell
start_command has shell default_shells entrypoint config command =
    let found = detect_shell has shell default_shells in
    if shell == []
    then choose shell entrypoint config command
    else if found == []
    then exits
    else choose shell found config command
