-- ===== src/Tar/Upload.antt =====
-- `upload`, `__create_tar` and `__list_members` of cincan/tar_tool.py: the archive that goes into the
-- container, and what is noted of it.
pub mod Laws
pub mod Unmodified
pub mod Members
use cincan_command.Prelude.{
  ℕ, zero, suc, ◌+◌, Text, codes, contains, length, Bool, true, false, Option, none, some, List, [],
  ◌∷◌, ◌++◌, ◌==◌, nat_eq, list_eq, if◌then◌else◌,
}
use mathlib.Core.Option
use cincan_command.Path.{PurePath, parse, as_posix, parent}
use cincan_command.Tar.Modified.{UploadStat, UploadStats, set_stat}
use cincan_command.Tar.Download.{Bytes, ◌>>=◌}

-- What stands on the host under a path
pub data Source : Type 0 where
  regular : Bytes → ℕ → Source
  directory : ℕ → Source
  -- a device, a socket
  unknown : ℕ → Source

pub data Entry : Type 0 where
  -- `__new_directory(name)`
  new_directory : Text → Entry
  -- a file or directory of the host under its archive name
  member : Text → Source → Entry

-- The attributes of a `FileLog`: the path on the host, the digest, and the file's own time
abbrev pub Logged : Type 0
Logged = PurePath × Text × ℕ

pub record Upload : Type 0 where
  pub entries : List Entry
  -- the directories that have been added, by their texts
  pub dirs : List Text
  pub upload_stats : UploadStats
  pub in_files : List Logged
  -- how often the clock has been read
  pub readings : ℕ

-- A directory is added once.
add_dir : Text → Upload → Upload
add_dir name u =
    if contains u.dirs name
    then u
    else record u { dirs = name ∷ u.dirs; entries = u.entries ++ new_directory name ∷ [] }

-- The walk from an archive name's parent up to the directory ".". It does not end at a path that
-- is absolute: `none` stands for that, and otherwise a round for each part is enough.
unfoldable pub lead_dirs : ℕ → PurePath → Upload → Option Upload
unfolding add_dir
lead_dirs zero p u = if as_posix p == codes "." then some u else none
lead_dirs (suc fuel) p u =
    let name = as_posix p in
    let more = lead_dirs fuel (parent p) (add_dir name u) in
    if name == codes "." then some u else more

-- `TarInfo.size`: of anything but a regular file it is 0.
abbrev pub size_of : Source → ℕ
size_of (regular c t) = length c
size_of _ = 0

abbrev pub mtime_of : Source → ℕ
mtime_of (regular c t) = t
mtime_of (directory t) = t
mtime_of (unknown t) = t

-- The archive that is put into the container: one that is made, or a given one as it is
pub data Content : Type 0 where
  made : List Entry → Content
  given : List (Text × Source) → Content

module _ (digest : Bytes → Text) (resolve : PurePath → PurePath) (now : ℕ → ℕ) where
  -- `self.upload_stats[name] = [size, mtime, datetime.now().timestamp()]`
  unfoldable pub note_stat : Text → Source → Upload → Upload
  unfolding set_stat
  note_stat name s u = record u {
    upload_stats =
        set_stat name
          (record { orig_size = size_of s; orig_time = mtime_of s; up_time = now u.readings })
          u.upload_stats;
    readings = suc u.readings;
  }

  -- The branches on the kind of a file of the host. The last one raises.
  add_source : PurePath → Text → Source → Upload → Option Upload
  add_source host_file name (regular c t) u = some (record u {
    entries = u.entries ++ member name (regular c t) ∷ [];
    in_files = u.in_files ++ (resolve host_file, digest c, t) ∷ [];
  })
  add_source host_file name (directory t) u =
      some (record u { entries = u.entries ++ member name (directory t) ∷ [] })
  add_source host_file name (unknown t) u = none

  add_file : PurePath → Text → Option Source → Upload → Option Upload
  add_file host_file name none u =
      some (record u { entries = u.entries ++ new_directory name ∷ [] })
  add_file host_file name (some s) u = add_source host_file name s (note_stat name s u)

  -- One round of the loop of `__create_tar`
  unfoldable pub add_upload : (PurePath → Option Source) → PurePath → Text → Upload → Option Upload
  unfolding add_source add_file note_stat lead_dirs parse as_posix
  add_upload host host_file name u =
      lead_dirs (length (parent (parse name)).parts) (parent (parse name)) u
      >>= add_file host_file name (host host_file)

  -- `__create_tar`, over the items of `upload_files`
  unfoldable pub create_tar :
      (PurePath → Option Source) → List (PurePath × Text) → Upload → Option Upload
  unfolding add_upload
  create_tar host [] u = some u
  create_tar host ((host_file, name) ∷ rest) u = do
    u' ← add_upload host host_file name u
    create_tar host rest u'

  -- `in_files.append` for a member of a given archive, if it is a file
  list_file : Text → Source → Upload → Upload
  list_file name (regular c t) u = record u {
    in_files = u.in_files ++ (resolve (parse name), digest c, t) ∷ [];
  }
  list_file name _ u = u

  -- `__list_members`
  unfoldable pub list_members : List (Text × Source) → Upload → Upload
  unfolding list_file note_stat parse
  list_members [] u = u
  list_members ((name, s) ∷ ms) u = list_members ms (list_file name s (note_stat name s u))

  -- `upload`: the third argument has the members of the archive that is given, on the standard
  -- input or as a file. The result tells what has been put, if anything has.
  unfoldable pub upload :
      (PurePath → Option Source)
      → List (PurePath × Text)
      → Option (List (Text × Source))
      → Upload
      → Option (Upload × Option Content)
  unfolding create_tar list_members
  upload host upload_files (some ms) u = some (list_members ms u, some (given ms))
  upload host [] none u = some (u, none)
  upload host (f ∷ fs) none u =
      Option.map (λ (u' : Upload). (u', some (made u'.entries)))
        (create_tar host (f ∷ fs) (record u { entries = []; dirs = [] }))
