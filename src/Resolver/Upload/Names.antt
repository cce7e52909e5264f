-- ===== src/Resolver/Upload/Names.antt =====
-- Which files `FileResolver` of cincan/file_tool.py gives for the upload, and under which names.
use cincan_command.Prelude.{
  ℕ, zero, suc, ◌≤◌, Text, codes, contains, contains-append, contains-keep, contains-sort,
  starts_with, length, sort, All, All-append, All-map, All-sort, keep, Bool, Bool-cases, true,
  false, not, ◌||◌, some, List, [], ◌∷◌, ◌++◌, ◌==◌, nat_eq, list_eq, ◌≡◌, refl, arith, inl, inr,
}
use cincan_command.Path.{PurePath, path_eq, as_posix, parent}
use cincan_command.Path.RoundTrip.{IsPart}
use cincan_command.Path.Parts.{
  as_posix-no_slash, as_posix-drop, length-init, nil_of_length, init-All,
}
use cincan_command.Resolver.{Host, is_some, strip_slash, use_absolute_path, archive_name_for}
use cincan_command.Resolver.Upload.{
  path_le, nearest, lead_files, with_parents, detect_upload_files, set_name, name_files,
  resolve_upload_files,
}

-- What the code relies on: a resolved path is absolute, with a single slash, and there are the
-- working directory and the root.
pub record IsSound (h : Host) : Type 0 where
  pub resolved_root : (p : PurePath) → (h.resolve p).root ≡ codes "/"
  pub resolved_parts : (p : PurePath) → All IsPart (h.resolve p).parts
  pub there : (p : PurePath) → p.parts ≡ [] → is_some (h.look p) ≡ true

strip_slash-no_slash :
    (p : PurePath)
    → p.root ≡ codes "/"
    → All IsPart p.parts
    → starts_with (strip_slash (as_posix p)) (codes "/") ≡ false
strip_slash-no_slash p e parts = elim (Bool-cases (starts_with (as_posix p) (codes "/"))) [
  | inl k ↦ rw k (as_posix-drop p e parts)
  | inr k ↦ rw k k
]

module _ (h : Host) (sound : IsSound h) where
  archive_name_for-no_slash :
      (p : PurePath) → All IsPart p.parts → starts_with (archive_name_for h p).1 (codes "/") ≡ false
  unfolding archive_name_for use_absolute_path
  archive_name_for-no_slash p parts = elim (Bool-cases (use_absolute_path p)) [
    | inl e ↦
        rw e (strip_slash-no_slash (h.resolve p) (sound.resolved_root p) (sound.resolved_parts p))
    | inr e ↦ rw e (as_posix-no_slash p (record { no_root = ground arith; all_parts = parts }))
  ]

  abbrev pub NoSlash : List (PurePath × Text) → Type 0
  NoSlash = All (λ f. starts_with f.1 (codes "/") ≡ false)

  set_name-NoSlash :
      (f : PurePath) (name : Text) (fs : List (PurePath × Text))
      → starts_with name (codes "/") ≡ false
      → NoSlash fs
      → NoSlash (set_name f name fs)
  unfolding set_name
  set_name-NoSlash f name [] n h = (n, tt)
  set_name-NoSlash f name ((g, m) ∷ fs) n h = elim (Bool-cases (f == g)) [
    | inl e ↦ rw e (n, h.1)
    | inr e ↦ rw e (h.0, set_name-NoSlash f name fs n h.1)
  ]

  module _ (output_dirs : List PurePath) where
    name_files-NoSlash :
        (fs : List PurePath) (named : List (PurePath × Text))
        → All (λ f. All IsPart f.parts) fs
        → NoSlash named
        → NoSlash (name_files h output_dirs fs named)
    unfolding name_files
    name_files-NoSlash [] named p n = n
    name_files-NoSlash (f ∷ fs) named p n = name_files-NoSlash fs _ p.1 (
        set_name-NoSlash (archive_name_for h f).0 (archive_name_for h f).1 named
          (archive_name_for-no_slash f p.0) n)

    nearest_lem :
        (fuel : ℕ) (p : PurePath)
        → length p.parts ≤ fuel
        → All IsPart p.parts
        → (q : PurePath) × (nearest h output_dirs fuel p ≡ some q)
          × (is_some (h.look q) ≡ true)
          × All IsPart q.parts
    unfolding nearest
    nearest_lem zero p l a =
        let there = sound.there p (nil_of_length p.parts l) in (p, rw there refl, there, a)
    nearest_lem (suc fuel) p l a = elim (Bool-cases (is_some (h.look p))) [
      | inl e ↦ (p, rw e refl, e, a)
      | inr e ↦
          let (q, eq, k, b) =
            nearest_lem fuel (parent p) (length-init p.parts fuel l) (init-All IsPart p.parts a) in
          (q, rw e eq, k, b)
    ]

    All-contains :
        (P : PurePath → Type 0) (fs : List PurePath)
        → ((f : PurePath) → contains fs f ≡ true → P f)
        → All P fs
    All-contains P [] h = tt
    All-contains P (f ∷ fs) h =
        (h f (ground arith), All-contains P fs (λ g k. h g (ground (arith, k))))

    -- A path that can be uploaded: it is there, or is an output directory.
    abbrev pub CanUpload : PurePath → Type 0
    CanUpload f = (is_some (h.look f) || contains output_dirs f) ≡ true

    abbrev pub Proper : PurePath → Type 0
    Proper f = CanUpload f × All IsPart f.parts

    lead_files_lem :
        (all_dirs fs : List PurePath)
        → All (λ f. All IsPart f.parts) fs
        → (ps : List PurePath) × (lead_files h output_dirs all_dirs fs ≡ some ps) × All Proper ps
    unfolding lead_files
    lead_files_lem all_dirs [] a = ([], refl, tt)
    lead_files_lem all_dirs (f ∷ fs) a =
        let (p, e, k, b) =
          nearest_lem (length (parent f).parts) (parent f) (omega arith)
            (init-All IsPart f.parts a.0) in
        let (ps, e', bs) = lead_files_lem all_dirs fs a.1 in
        elim (Bool-cases (contains all_dirs p)) [
          | inl c ↦ (ps, rw (e, e') (rw c refl), bs)
          | inr c ↦ (p ∷ ps, rw (e, e') (rw c refl), ((rw k refl, b), bs))
        ]

    All-keep :
        (P Q : PurePath → Type 0) (t : PurePath → Bool) (fs : List PurePath)
        → ((f : PurePath) → t f ≡ true → P f → Q f)
        → All P fs
        → All Q (keep t fs)
    All-keep P Q t [] i a = tt
    All-keep P Q t (f ∷ fs) i a = elim (Bool-cases (t f)) [
      | inl e ↦ rw e (i f e a.0, All-keep P Q t fs i a.1)
      | inr e ↦ rw e (All-keep P Q t fs i a.1)
    ]

    -- On a host that has the working directory and the root, and whose resolved paths are proper and
    -- absolute, the files to upload are found for every list of proper paths: all files of the list
    -- that are there, and nothing but files and directories that are there, or are to be made for
    -- output.
    pub detect_upload_files_lem :
        (host_files : List PurePath)
        → All (λ f. All IsPart f.parts) host_files
        → (fs : List PurePath) × (detect_upload_files h output_dirs host_files ≡ some fs)
          × All Proper fs
          × All (λ f. (not (is_some (h.look f)) || contains fs f) ≡ true) host_files
    unfolding detect_upload_files
    detect_upload_files_lem host_files a =
        let it_files : List PurePath = sort path_le host_files in
        let t : PurePath → Bool = λ f. is_some (h.look f) || contains output_dirs f in
        let n : PurePath → Bool = λ f. not (is_some (h.look f)) in
        let a' : All (λ f. All IsPart f.parts) it_files = All-sort path_le _ host_files a in
        let (ps, e, b) =
          lead_files_lem (with_parents (keep t it_files)) (keep n it_files)
            (All-keep _ _ n it_files (λ f _ k. k) a') in
        (
          keep t it_files ++ ps,
          rw e refl,
          All-append _ (keep t it_files) ps (All-keep _ Proper t it_files (λ f k l. (k, l)) a') b,
          All-contains _ host_files (λ f c. ground (
            arith,
            contains-append (keep t it_files) ps f,
            contains-keep t f it_files,
            contains-sort path_le f host_files,
          )),
        )

    -- On a host that has the working directory and the root, and whose resolved paths are proper and
    -- absolute, each file to upload gets a name in the archive for every list of proper paths, and no
    -- name begins with a slash.
    pub resolve_upload_files-NoSlash :
        (host_files : List PurePath)
        → All (λ f. All IsPart f.parts) host_files
        → (named : List (PurePath × Text)) × (resolve_upload_files h output_dirs host_files
            ≡ some named)
          × NoSlash named
    unfolding resolve_upload_files
    resolve_upload_files-NoSlash host_files a =
        let (fs, e, b, _) = detect_upload_files_lem host_files a in
        (
          name_files h output_dirs fs [],
          rw e refl,
          name_files-NoSlash fs [] (All-map _ _ (λ f k. k.1) fs b) tt,
        )
