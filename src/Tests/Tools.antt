-- ===== src/Tests/Tools.antt =====
-- Images, saved files, shells and the container check.
use cincan_command.Prelude.{
  ℕ, Bool, ◌⊎◌, Text, codes, true, false, some, none, List, [], ◌∷◌, ◌≡◌, refl, nat_eq, list_eq,
  arith, ◌==◌, if◌then◌else◌, not, any, contains, length, Option, ◌+◌, ◌&&◌, starts_with,
}
use cincan_command.Stream.{Bytes}
use cincan_command.Log.Hash.{read_with_hash, read_with_hash_lem}
use cincan_command.Images.Source.{Found, get_image-Found}
use cincan_command.Images.{Client, Names, pulled, not_found, get_image, name_tag, full_name}
use cincan_command.Check.{
  Tool, Place, Folder, Log, Result, default_args, prepare, verdict, report, test_string,
  verdict-none, run-left_over, report-failed,
}
use cincan_command.Check
use cincan_command.Tar.Download.{directory, Host, save_file}
use cincan_command.Tar.Download
use cincan_command.Tar.Download.Content.{Saved, save_file_lem}
use cincan_command.Versions.{VersionInfo}
use cincan_command.Frontend.Probe.{probe, tried, missed, probe_lem}
use cincan_command.Frontend.Image.{Settings, ToolImage, name_of, converted_names, tool_image}
use cincan_command.Frontend.Image.Laws.{migrated, tool_image-migrated}
use cincan_command.Frontend.{detect_shell}

-- A client without images, where a pull of the tag "dev" brings image 7.
abbrev pub client : Client
client = record {
  State = List Text;
  Image = ℕ;
  get = λ name s. (if s == [] then none else some 7, s);
  pull = λ name tag s. if tag == codes "dev" then (pulled, tag ∷ s) else (not_found, s);
}

abbrev pub names : Names
names = record {
  stable_tag = codes "latest";
  dev_tag = codes "dev";
  full_prefix = codes "quay.io/cincan";
}

abbrev tool_name : Text
tool_name = codes "quay.io/cincan/t"

get_image-Found_example : Found names client tool_name 7
unfolding get_image name_tag nat_eq list_eq
get_image-Found_example = get_image-Found names client tool_name 3 false [] 7 refl

abbrev empty_place : Place
empty_place = record { in_folder = none; out_folder = none }

-- A tool that copies the input
abbrev copies : Tool
copies args p = (
  some (record { exit_code = 0; stdout = []; stderr = [] }),
  record p { out_folder = some (record { others = false; text = some test_string }) },
)

run-left_over_example : (Check.run copies [] empty_place).1 ≡ empty_place
unfolding prepare
run-left_over_example = run-left_over copies [] empty_place refl refl

-- A hash that tells the contents used here from one another
abbrev hash : Bytes → Text
hash c = c

abbrev working_dir : Host
working_dir j =
    if j == codes "out/a"
    then some (Download.file (1 ∷ []))
    else if j == codes "out"
    then some directory
    else none

save_file_lem_example :
    (h' : Host) × (save_file hash (codes "out/a") (codes "out" ∷ []) (2 ∷ []) false working_dir
      ≡ some h')
    × Saved hash (codes "out/a") (codes "out" ∷ []) (2 ∷ []) working_dir h'
unfolding nat_eq list_eq
save_file_lem_example =
    save_file_lem hash (codes "out/a") (codes "out" ∷ []) (2 ∷ []) false working_dir
      (λ old e d. ground (arith, e)) (tt, tt) refl refl tt tt

abbrev bash : Text
bash = codes "/bin/bash"

abbrev sh : Text
sh = codes "/bin/sh"

abbrev has_sh : Text → Bool
has_sh s = s == sh

probe_lem_example :
    let (found, c) = probe has_sh (codes "/bin/zsh") (bash ∷ sh ∷ []) in
    let shells = tried (codes "/bin/zsh") (bash ∷ sh ∷ []) in
    (found ≡ detect_shell has_sh (codes "/bin/zsh") (bash ∷ sh ∷ []))
    × (c.left ≡ length (missed has_sh shells))
    × (c.created ≡ c.left + (if any has_sh shells then 1 else 0))
    × (c.warned
        ≡ (not (contains (bash ∷ sh ∷ []) (codes "/bin/zsh")) && not (has_sh (codes "/bin/zsh"))))
probe_lem_example = probe_lem has_sh (codes "/bin/zsh") (bash ∷ sh ∷ [])

probe_test :
    probe has_sh (codes "/bin/zsh") (bash ∷ sh ∷ [])
    ≡ (sh, record { created = 3; left = 2; warned = true })
unfolding probe nat_eq list_eq
probe_test = refl

abbrev settings : Settings
settings = record { docker_hub = false; show_updates = false; is_verbose = true; connects = true }

abbrev no_info : Text → Option VersionInfo
no_info name = none

-- No image is built.
abbrev no_build : Text → List Text → Option ℕ × List Text
no_build path s = (none, s)

abbrev old_name : Text
old_name = codes "cincan/t"

abbrev new_tool : ToolImage names client
new_tool = record {
  name = tool_name;
  image = 7;
  loaded_image = true;
  context = codes ".";
  told = [];
}

tool_image-migrated_example :
    (new_tool.name ≡ migrated names.full_prefix (codes "t"))
    × (new_tool.loaded_image ≡ true)
    × (u : List Text) × (tag : Text) × ((client.get
          (full_name names (migrated names.full_prefix (codes "t")) tag)
          u).0
        ≡ some new_tool.image)
    × ((tag ≡ names.stable_tag) ⊎ (tag ≡ names.dev_tag))
unfolding tool_image name_of converted_names get_image name_tag nat_eq list_eq starts_with
tool_image-migrated_example =
    tool_image-migrated names client settings false (λ i. []) no_info no_build 3 (codes "t") false
      [] new_tool refl refl refl refl refl refl

abbrev payload : List ℕ
payload = 104 ∷ 105 ∷ []

read_with_hash_lem_example : read_with_hash payload ≡ some (payload, payload)
read_with_hash_lem_example = read_with_hash_lem payload
