-- ===== src/Frontend/Image.antt =====
-- `ToolImage.__init__` of cincan/frontend.py: the image of a tool, fetched or built.
-- A call without a path and without an image, which the program never makes, is left out.
pub mod Laws
use cincan_command.Prelude.{
  ℕ, Text, codes, contains, Bool, true, false, not, ◌&&◌, Option, none, some, List, [], ◌∷◌, nat_eq,
  if◌then◌else◌,
}
use cincan_command.Images.{Client, Names, rsplit, Outcome, get_image}
use cincan_command.Main.{Origin, from_image, from_path}
use cincan_command.Frontend.{basename, namespace_conversion}
use cincan_command.Versions.{VersionInfo, compare_versions}

abbrev name_or : Text → Text → Text
name_or [] other = other
name_or (c ∷ v) other = c ∷ v

-- The name and the image's name after the conversion, where a path comes with no image
unfoldable pub converted_names : Bool → Text → Text → Origin → Text × Text
unfolding namespace_conversion
converted_names docker_hub full_prefix name (from_image image pull) =
    namespace_conversion docker_hub full_prefix name image
converted_names docker_hub full_prefix name (from_path path) =
    namespace_conversion docker_hub full_prefix name []

-- `self.name`
unfoldable pub name_of : Bool → Text → Text → Origin → Text
unfolding converted_names
name_of docker_hub full_prefix name (from_image image pull) =
    let (name', image') = converted_names docker_hub full_prefix name (from_image image pull) in
    name_or name' image'
name_of docker_hub full_prefix name (from_path path) =
    name_or (converted_names docker_hub full_prefix name (from_path path)).0 path

-- `name.rsplit(":", 1)[0]`
unfoldable pub without_tag : Text → Text
unfolding rsplit
without_tag name = if contains name b':' then (rsplit name).0 else name

-- What is asked of the configuration and the registry
pub record Settings : Type 0 where
  pub docker_hub : Bool
  pub show_updates : Bool
  -- whether the level of the log is below a warning
  pub is_verbose : Bool
  -- whether the Docker server answers
  pub connects : Bool

module _ (names : Names) (client : Client) where
  open names use {stable_tag, full_prefix}
  open client use {State, Image}

  -- The attributes of the `ToolImage`, and what is told of versions
  pub record ToolImage : Type 0 where
    pub name : Text
    pub image : Image
    pub loaded_image : Bool
    pub context : Text
    pub told : List Text

  pub data Made : Type 0 where
    made : ToolImage → Made
    exits : ℕ → Made
    raises : Made

  module _ (s : Settings) (batch : Bool) (current : Image → Text) (info : Text → Option VersionInfo)
      (build : Text → State → Option Image × State) where
    -- `compare_versions`, unless it is switched off
    versions_told : Text → Image → List Text
    unfolding compare_versions without_tag
    versions_told name image =
        if s.show_updates && not batch && s.is_verbose
        then compare_versions full_prefix (without_tag name) stable_tag (current image)
            (info (basename (without_tag name)))
        else []

    fetched_image : Text → Outcome names client × State → Made × State
    fetched_image name (Outcome.image i, t) = (
      made (record {
        name = name;
        image = i;
        loaded_image = true;
        context = codes ".";
        told = versions_told name i;
      }),
      t,
    )
    fetched_image name (Outcome.exits code, t) = (exits code, t)
    fetched_image name (Outcome.raises, t) = (raises, t)
    fetched_image name (Outcome.recursion_error, t) = (raises, t)

    built_image : Text → Text → Option Image × State → Made × State
    built_image name path (none, t) = (raises, t)
    built_image name path (some i, t) = (
      made (record {
        name = name;
        image = i;
        loaded_image = false;
        context = path;
        told = versions_told name i;
      }),
      t,
    )

    by_origin : ℕ → Text → Origin → State → Made × State
    unfolding fetched_image built_image
    by_origin depth name (from_image image pull) t =
        fetched_image (name_of s.docker_hub full_prefix name (from_image image pull)) (
          get_image names client depth
            (converted_names s.docker_hub full_prefix name (from_image image pull)).1 pull t)
    by_origin depth name (from_path path) t =
        built_image (name_of s.docker_hub full_prefix name (from_path path)) path (build path t)

    -- `ToolImage(name, …)`, within a depth of recursion
    unfoldable pub tool_image : ℕ → Text → Origin → State → Made × State
    unfolding by_origin versions_told
    tool_image depth name origin t =
        if not s.connects then (exits 1, t) else by_origin depth name origin t
