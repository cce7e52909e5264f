-- ===== src/Versions.antt =====
-- `VersionHandler` of cincan/version_handler.py: what is told of an image's version.
use cincan_command.Prelude.{
  Text, codes, contains, join, starts_with, Bool, true, false, not, Option, none, some, List, [],
  ◌∷◌, ◌++◌, ◌==◌, nat_eq, list_eq, if◌then◌else◌, ◌≡◌, ◌↔◌, Bool-cases, inl, inr, arith,
}

-- What the registry lists of a source: a version and its tags
pub record Listed : Type 0 where
  pub version : Text
  pub tags : List Text

-- `list_versions`: its parts may be absent
pub record VersionInfo : Type 0 where
  -- whether "versions" has any entry
  pub has_versions : Bool
  pub local : Option Listed
  pub remote : Option Listed
  -- the version and the provider
  pub origin : Option (Text × Text)
  -- whether there are updates of the local and of the remote image
  pub updates : Option (Bool × Bool)

pub record Versions : Type 0 where
  pub current_version : Text
  pub data_available : Bool
  pub latest_local : Text
  pub local_tags : List Text
  pub local_updates : Bool
  pub latest_remote : Text
  pub remote_tags : List Text
  pub remote_updates : Bool
  pub latest_origin : Text
  pub origin_provider : Text

abbrev no_versions : Text → Versions
no_versions current = record {
  current_version = current;
  data_available = false;
  latest_local = [];
  local_tags = [];
  local_updates = false;
  latest_remote = [];
  remote_tags = [];
  remote_updates = false;
  latest_origin = [];
  origin_provider = [];
}

set_local : Option Listed → Versions → Versions
set_local none v = v
set_local (some l) v = record v { latest_local = l.version; local_tags = l.tags }

set_remote : Option Listed → Versions → Versions
set_remote none v = v
set_remote (some r) v = record v { latest_remote = r.version; remote_tags = r.tags }

set_origin : Option (Text × Text) → Versions → Versions
set_origin none v = v
set_origin (some (version, provider)) v = record v {
  latest_origin = version;
  origin_provider = provider;
}

-- Updates are told of together with versions.
set_updates : Bool → Option (Bool × Bool) → Versions → Versions
set_updates has_versions none v = v
set_updates has_versions (some (local, remote)) v = record v {
  local_updates = local;
  remote_updates = remote;
  data_available = has_versions;
}

-- `_get_version_information` of a new handler, with `none` for an image without an origin check or
-- without information
unfoldable pub version_information : Text → Option VersionInfo → Versions
unfolding set_local set_remote set_origin set_updates
version_information current none = no_versions current
version_information current (some i) =
    set_updates i.has_versions i.updates
      (set_origin i.origin (set_remote i.remote (set_local i.local (no_versions current))))

pub data Color : Type 0 where
  green yellow red : Color

-- The colors of the current, the local and the remote version
unfoldable pub colors : Versions → Color × Color × Color
colors v =
    let remote = if v.remote_updates then yellow else green in
    if not v.local_updates
    then (if not (v.current_version == v.latest_local)
        then (yellow, green, remote)
        else (green, green, remote))
    else (yellow, red, remote)

abbrev commas : List Text → Text
commas [] = []
commas (t ∷ ts) = join b',' t ts

-- The second line, which is empty if there is nothing to say
unfoldable pub other_line : Text → Text → Versions → Text
other_line tool_name stable_tag v =
    if not v.local_updates
    then (if not (v.current_version == v.latest_local)
        then codes "Latest local is available with tags '" ++ commas v.local_tags ++ codes "'"
        else [])
    else if contains v.remote_tags stable_tag
    then codes "Update available in remote: ('"
      ++ v.latest_local
      ++ codes "' vs. '"
      ++ v.latest_remote
      ++ codes "') Use 'docker pull "
      ++ tool_name
      ++ codes ":"
      ++ stable_tag
      ++ codes "' to update."
    else codes "Newer development version available in remote: '"
      ++ v.latest_local
      ++ codes "' vs. '"
      ++ v.latest_remote
      ++ codes "' with tags '"
      ++ commas v.remote_tags
      ++ codes "'"

escape : Text → Text
escape digits = 27 ∷ codes "[" ++ digits ++ codes "m"

-- `ANSIEscapes`
ansi : Color → Text
unfolding escape
ansi green = escape (codes "92")
ansi yellow = escape (codes "93")
ansi red = escape (codes "31")

labelled : Text → Text → Text → Text
unfolding escape
labelled label color version =
    escape (codes "1") ++ label ++ codes ":" ++ escape (codes "0") ++ codes " " ++ color ++ version

end_color : Text
unfolding escape
end_color = escape (codes "0")

-- `ver_info`
unfoldable pub version_line : Versions → Text
unfolding colors ansi labelled end_color
version_line v =
    let (current, local, remote) = colors v in
    codes "Version information - "
    ++ labelled (codes "Current") (ansi current) v.current_version
    ++ end_color
    ++ codes " "
    ++ labelled (codes "Latest Local") (ansi local) v.latest_local
    ++ end_color
    ++ codes " "
    ++ labelled (codes "Latest Remote") (ansi remote) v.latest_remote
    ++ end_color
    ++ codes " "
    ++ labelled (codes "Origin") [] v.latest_origin

told : Text → Text → Versions → List Text
told tool_name stable_tag v =
    let other = other_line tool_name stable_tag v in
    if v.data_available
    then (if other == [] then version_line v ∷ [] else version_line v ∷ other ∷ [])
    else (codes "No version information available for " ++ tool_name ++ codes "\n") ∷ []

-- `compare_versions`: the lines that are logged for information
unfoldable pub compare_versions : Text → Text → Text → Text → Option VersionInfo → List Text
unfolding version_information other_line version_line told starts_with
compare_versions full_prefix tool_name stable_tag current info =
    if not (starts_with tool_name (full_prefix ++ codes "/"))
    then []
    else told tool_name stable_tag (version_information current info)

-- There is nothing to say of a version that is the latest local one, without an update.
other_line-nil :
    (tool_name stable_tag : Text) (v : Versions)
    → (other_line tool_name stable_tag v ≡ [])
      ↔ ((v.local_updates ≡ false) × (v.current_version ≡ v.latest_local))
unfolding other_line
other_line-nil tool_name stable_tag v = elim (Bool-cases v.local_updates) [
  | inl u ↦ elim (Bool-cases (contains v.remote_tags stable_tag)) [
    | inl k ↦ (λ e. let e' = simp (u, k) at e in cc e', λ (f, _). cc)
    | inr k ↦ (λ e. let e' = simp (u, k) at e in cc e', λ (f, _). cc)
  ]
  | inr u ↦ elim (Bool-cases (v.current_version == v.latest_local)) [
    | inl k ↦ (λ e. (u, ground arith), λ _. simp (u, k))
    | inr k ↦ (λ e. let e' = simp (u, k) at e in cc e', λ (_, f). ground arith)
  ]
]

-- The current version is green exactly if it is the latest local one and the latter has no update.
-- The local version is red exactly if it has an update. There is something to say unless the
-- current version is green.
colors-green :
    (tool_name stable_tag : Text) (v : Versions)
    → let (current, local, remote) = colors v in
      ((current ≡ green) ↔ ((v.local_updates ≡ false) × (v.current_version ≡ v.latest_local)))
      × ((local ≡ red) ↔ (v.local_updates ≡ true))
      × ((other_line tool_name stable_tag v ≡ []) ↔ (current ≡ green))
unfolding colors
colors-green tool_name stable_tag v =
    let (f, g) = other_line-nil tool_name stable_tag v in
    (
      (λ e. (ground arith, ground arith), λ (u, c). ground arith),
      (λ e. ground arith, λ u. ground arith),
      (λ e. let (u, c) = f e in ground arith, λ e. g (ground arith, ground arith)),
    )
