-- ===== src/Images.antt =====
-- `ImageFetcher.get_image` of cincan/image_fetcher.py, over the Docker client's two calls.
pub mod Source
pub mod Progress
use cincan_command.Prelude.{
  ℕ, zero, suc, Text, codes, contains, starts_with, Bool, true, false, not, ◌&&◌, ◌||◌, Option,
  none, some, List, [], ◌∷◌, ◌++◌, ◌==◌, nat_eq, list_eq, if◌then◌else◌,
}

-- How `images.pull` ends. In docker.errors, ImageNotFound is a NotFound, and that is an APIError.
pub data Pull : Type 0 where
  pulled image_not_found not_found api_error keyboard_interrupt : Pull

-- The client with the state behind it. `get` fails with ImageNotFound, which is `none`.
pub record Client : Type 1 where
  pub State : Type 0
  pub Image : Type 0
  pub get : Text → State → Option Image × State
  pub pull : Text → Text → State → Pull × State

-- What the program reads of the configuration and the registry.
pub record Names : Type 0 where
  pub stable_tag : Text
  pub dev_tag : Text
  pub full_prefix : Text

-- `image.rsplit(':', 1)` of a text with a colon: the last colon parts it.
unfoldable pub rsplit : Text → Text × Text
rsplit [] = ([], [])
rsplit (c ∷ v) =
    let (name, tag) = rsplit v in
    if c == b':' && not (contains v b':') then ([], v) else (c ∷ name, tag)

module _ (names : Names) where
  open names use {stable_tag, dev_tag, full_prefix}

  unfoldable pub is_cincan : Text → Bool
  unfolding starts_with
  is_cincan image = starts_with image (full_prefix ++ codes "/")

  -- The name and the tag to begin with
  unfoldable pub name_tag : Text → Text × Text
  unfolding rsplit is_cincan
  name_tag image =
      if contains image b':'
      then rsplit image
      else (image, if is_cincan image then stable_tag else codes "latest")

  abbrev pub full_name : Text → Text → Text
  full_name name tag = name ++ (codes ":" ++ tag)

  -- Whether another tag is not attempted.
  abbrev pub is_custom : Text → Bool
  is_custom image = not ((name_tag image).1 == stable_tag) || not (is_cincan image)

module _ (names : Names) (client : Client) where
  open names use {stable_tag, dev_tag}
  open client use {State, Image, get, pull}

  pub data Outcome : Type 0 where
    image : Image → Outcome
    exits : ℕ → Outcome
    -- an exception that is not handled here
    raises : Outcome
    -- deeper than the recursion that is allowed
    recursion_error : Outcome

  -- The last lines: look the image up, or start over with `pull=True`.
  look_up : (State → Outcome × State) → Option Image × State → Outcome × State
  look_up again (some i, s) = (image i, s)
  look_up again (none, s) = again s

  -- How the pull of the development tag ends. `except NotFound` also takes ImageNotFound.
  after_dev_pull : (State → Outcome × State) → Text → Pull × State → Outcome × State
  after_dev_pull again dev (pulled, s) = look_up again (get dev s)
  after_dev_pull again dev (image_not_found, s) = (exits 1, s)
  after_dev_pull again dev (not_found, s) = (exits 1, s)
  after_dev_pull again dev (api_error, s) = (raises, s)
  after_dev_pull again dev (keyboard_interrupt, s) = (raises, s)

  -- The development image, which is not pulled if it is there.
  try_dev : (State → Outcome × State) → Text → Option Image × State → Outcome × State
  try_dev again name (some i, s) = (image i, s)
  try_dev again name (none, s) =
      after_dev_pull again (full_name names name dev_tag) (pull name dev_tag s)

  after_pull : (State → Outcome × State) → Bool → Text → Text → Pull × State → Outcome × State
  after_pull again custom name tag (pulled, s) = look_up again (get (full_name names name tag) s)
  after_pull again custom name tag (image_not_found, s) = (exits 1, s)
  after_pull again custom name tag (not_found, s) =
      if custom then (exits 1, s) else try_dev again name (get (full_name names name dev_tag) s)
  after_pull again custom name tag (api_error, s) = (exits 1, s)
  after_pull again custom name tag (keyboard_interrupt, s) = (exits 0, s)

  -- `get_image`, within a depth of recursion
  unfoldable pub get_image : ℕ → Text → Bool → State → Outcome × State
  unfolding look_up try_dev after_dev_pull after_pull
  get_image zero img pull_first s = (recursion_error, s)
  get_image (suc depth) img pull_first s =
      let (name, tag) = name_tag names img in
      let again = λ (t : State). get_image depth img true t in
      let pulling = after_pull again (is_custom names img) name tag (pull name tag s) in
      if pull_first then pulling else look_up again (get (full_name names name tag) s)
