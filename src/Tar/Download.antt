-- ===== src/Tar/Download.antt =====
-- `__download_file_set` of cincan/tar_tool.py: the members of an archive of the container, copied
-- into the working directory of the host or into a tar file.
pub mod Content
pub mod Logged
pub mod Met
pub mod Returns
pub mod Stored
pub mod OnDisk
use cincan_command.Prelude.{
  ℕ, Text, codes, contains, starts_with, length, drop, keep, Bool, true, false, not, ◌&&◌, Option,
  none, some, List, [], ◌∷◌, ◌++◌, ◌==◌, nat_eq, list_eq, if◌then◌else◌,
}
use mathlib.Core.Option
use cincan_command.Path.{PurePath, parse, as_posix, parent, join_path, is_absolute}
use cincan_command.Tar.Filter.{named_parents}
use cincan_command.Tar.Modified.{UploadStats, check_if_modified}

abbrev pub Bytes : Type 0
Bytes = List ℕ

pub data Node : Type 0 where
  file : Bytes → Node
  directory : Node

-- The host's working directory, by the text of the path
abbrev pub Host : Type 0
Host = Text → Option Node

abbrev pub put : Text → Option Node → Host → Host
put k n h j = if k == j then n else h j

-- `none` is an exception.
infixl 5 ◌>>=◌
abbrev pub ◌>>=◌ {ℓ κ} : {A : Type ℓ} {B : Type κ} → Option A → (A → Option B) → Option B
none >>= f = none
some a >>= f = f a

-- `mkdir(exist_ok=True)` for one directory: a file in its place raises.
make_directory : Text → Host → Option Node → Option Host
make_directory k h none = some (put k (some directory) h)
make_directory k h (some directory) = some h
make_directory k h (some (file _)) = none

-- `parents=True`, from the outermost directory inwards
unfoldable pub make_directories : List Text → Host → Option Host
unfolding make_directory
make_directories [] h = some h
make_directories (k ∷ ks) h = do h' ← make_directories ks h; make_directory k h' (h' k)

-- `path.unlink()` raises at a directory.
unlink_node : Text → Host → Option Node → Option Host
unlink_node k h (some (file _)) = some (put k none h)
unlink_node k h _ = none

unfoldable pub unlink : Text → Host → Option Host
unfolding unlink_node
unlink k h = unlink_node k h (h k)

-- `path.rename(target)`
unfoldable pub rename : Text → Text → Host → Host
rename k j h = put k none (put j (h k) h)

-- `path.open("wb")`, and all that is written to it: a directory raises.
write_node : Text → Bytes → Host → Option Node → Option Host
write_node k c h (some directory) = none
write_node k c h _ = some (put k (some (file c)) h)

unfoldable pub write_file : Text → Bytes → Host → Option Host
unfolding write_node
write_file k c h = write_node k c h (h k)

pub record Member : Type 0 where
  pub name : PurePath
  pub size : ℕ
  pub mtime : ℕ
  pub mode : ℕ
  -- the content of a regular file, and nothing for another member
  pub content : Option Bytes

-- A member of the tar file that is written to
pub record Written : Type 0 where
  pub name : Text
  pub mtime : ℕ
  pub mode : ℕ
  pub size : ℕ
  pub content : Bytes

-- The time of a log entry: the clock's at the download, or that of a directory that is made
pub data Stamp : Type 0 where
  at_download of_directory : Stamp

-- The attributes of a `FileLog`, with the path from the host's working directory
pub record LogEntry : Type 0 where
  pub path : Text
  pub digest : Text
  pub timestamp : Stamp

pub record Download : Type 0 where
  pub files : List Text
  pub host : Host
  -- the members of the tar file that is written to
  pub written : List Written
  pub logged : List LogEntry

abbrev content_of : Option Node → Option Bytes
content_of (some (file c)) = some c
content_of _ = none

abbrev is_none : Option Node → Bool
is_none none = true
is_none (some _) = false

-- The path on the host for a path in the container
unfoldable pub host_path : Text → Text → Option PurePath
unfolding starts_with parse
host_path work_dir full_name =
    if starts_with full_name work_dir
    then some (parse (drop (length work_dir) full_name))
    else if starts_with full_name (codes "/")
    then some (parse (drop 1 full_name))
    else none

module _ (digest : Bytes → Text) where
  abbrev pub temp_name : Text → Text
  temp_name k = k ++ codes "_TEMP"

  -- `file_in_host.unlink()` and `temp_file.rename(file_in_host)`
  unfoldable pub replace : Text → Host → Option Host
  unfolding unlink rename
  replace k h = do h' ← unlink k h; some (rename (temp_name k) k h')

  -- The comparison by hash, with the content of the host's file. A directory cannot be read.
  same_or_replace : Text → Bytes → Host → Option Bytes → Option Host
  same_or_replace k c h none = none
  same_or_replace k c h (some old) =
      if digest c == digest old then unlink (temp_name k) h else replace k h

  over_existing : Text → Bytes → Bool → Host → Option Host
  over_existing k c modified h =
      if modified then replace k h else same_or_replace k c h (content_of (h k))

  -- A regular file, which is new or takes the place of another one
  unfoldable pub save_file : Text → List Text → Bytes → Bool → Host → Option Host
  unfolding make_directories write_file replace unlink over_existing same_or_replace
  save_file k dirs c modified h = do
    h' ← make_directories dirs h
    (if is_none (h k)
        then write_file k c h'
        else (write_file (temp_name k) c h' >>= over_existing k c modified))

  -- A directory that is needed, unless something of its name is there
  pub save_directory : Text → List Text → Host → Option Host
  save_directory k dirs h =
      if is_none (h k)
      then (do h' ← make_directories dirs h; make_directory k h' (h' k))
      else some h

  log_entry : Text → Text → Stamp → Download → Download
  log_entry k md t d = record d {
    logged = d.logged ++ record { path = k; digest = md; timestamp = t } ∷ [];
  }

  -- `write_to.addfile`
  add_written : Text → Bytes → Member → Download → Download
  add_written k c m d = record d {
    written =
        d.written
        ++ record { name = k; mtime = m.mtime; mode = m.mode; size = length c; content = c } ∷ [];
  }

  with_host : Download → Option Host → Option Download
  with_host d none = none
  with_host d (some h) = some (record d { host = h })

  -- What is done with a member that is to be downloaded. A member without content cannot be
  -- written to a tar file: `extractfile` gives None, and None has no `read`.
  fetch : Bool → Text → List Text → Bool → Member → Option Bytes → Download → Option Download
  fetch true k dirs modified m none d = none
  fetch true k dirs modified m (some c) d =
      some (log_entry k (digest c) at_download (add_written k c m d))
  fetch false k dirs modified m none d =
      Option.map (log_entry k [] (if is_none (d.host k) then of_directory else at_download))
        (with_host d (save_directory k dirs d.host))
  fetch false k dirs modified m (some c) d =
      Option.map (log_entry k (digest c) at_download)
        (with_host d (save_file k dirs c modified d.host))

  module _ (work_dir : Text) (stats : UploadStats) (to_tar : Bool) where
    pub save_at : Option PurePath → Member → Download → Option Download
    save_at none m d = some d
    save_at (some p) m d =
        let k = as_posix p in
        let (modified, unmodified) = check_if_modified stats k m.size m.mtime in
        let dirs = named_parents (length (parent p).parts) (parent p) in
        if is_absolute p
        then some d
        else if unmodified
        then some d
        else fetch to_tar k dirs modified m m.content d

    -- One round of the loop over the archive
    unfoldable pub step : PurePath → Member → Download → Option Download
    unfolding save_at fetch log_entry add_written with_host save_file save_directory host_path
        as_posix join_path
    step base_path m d =
        let full_name = as_posix (join_path (parent base_path) m.name) in
        if not (contains d.files full_name)
        then some d
        else save_at (host_path work_dir full_name) m
            (record d { files = keep (λ f. not (f == full_name)) d.files })

    -- `__download_file_set`, on the members that the container gives for the path. The files of
    -- the set that are met are taken out of it.
    unfoldable pub download_file_set : PurePath → List Member → Download → Option Download
    unfolding step
    download_file_set base_path [] d = some d
    download_file_set base_path (m ∷ ms) d = do
      d' ← step base_path m d
      download_file_set base_path ms d'
