-- ===== src/Tar/Upload/Laws.antt =====
-- What `__create_tar` of cincan/tar_tool.py puts into its archive, and what it notes of each file.
use cincan_command.Prelude.{
  ℕ, zero, suc, ◌≤◌, Text, codes, contains, contains-append, starts_with, length, All, Bool-cases,
  true, false, Option, none, some, List, [], ◌∷◌, ◌++◌, ◌==◌, nat_eq, list_eq, ◌≡◌, inl, inr, refl,
  ap, ◌∙◌, arith,
}
use cincan_command.Path.{PurePath, parse, as_posix, parent}
use cincan_command.Path.Parts.{
  IsRelative, parse-IsRelative, parent-IsRelative, as_posix-eq-dot, length-init, empty_of_length,
}
use cincan_command.Tar.Filter.{named_parents, parents_of}
use cincan_command.Tar.Download.{Bytes}
use cincan_command.Tar.Upload.{
  Source, regular, directory, unknown, Entry, new_directory, member, Upload, add_dir, lead_dirs,
  add_source, add_file, add_upload, create_tar, note_stat, made, upload,
}

-- The names of the directories that an archive has for themselves
abbrev pub directories_of : List Entry → List Text
directories_of [] = []
directories_of (new_directory name ∷ es) = name ∷ directories_of es
directories_of (member name s ∷ es) = directories_of es

directories_of-append :
    (es es' : List Entry) → directories_of (es ++ es') ≡ directories_of es ++ directories_of es'
directories_of-append [] es' = refl
directories_of-append (new_directory name ∷ es) es' = rw (directories_of-append es es')
directories_of-append (member name s ∷ es) es' = directories_of-append es es'

-- The directories that are known to be added are in the archive.
abbrev pub IsTracked : Upload → Type 0
IsTracked u = (d : Text) → contains u.dirs d ≡ true → contains (directories_of u.entries) d ≡ true

-- The archive has every directory that it had before.
abbrev Grows : Upload → Upload → Type 0
Grows u u' =
    (d : Text)
    → contains (directories_of u.entries) d ≡ true
    → contains (directories_of u'.entries) d ≡ true

abbrev SameNotes : Upload → Upload → Type 0
SameNotes u u' = (u'.upload_stats ≡ u.upload_stats) × (u'.readings ≡ u.readings)

contains-entries :
    (es : List Entry) (e : Entry) (d : Text)
    → contains (directories_of (es ++ e ∷ [])) d
      ≡ (contains (directories_of es ++ directories_of (e ∷ [])) d)
contains-entries es e d = rw (directories_of-append es (e ∷ []))

module _ (name : Text) (u : Upload) where
  add_dir-Grows : Grows u (add_dir name u)
  unfolding add_dir
  add_dir-Grows d h = ground (
    arith,
    contains-entries u.entries (new_directory name) d,
    contains-append (directories_of u.entries) (name ∷ []) d,
  )

  add_dir-IsTracked : IsTracked u → IsTracked (add_dir name u)
  unfolding add_dir
  add_dir-IsTracked t d h = ground (
    arith,
    t d,
    contains-entries u.entries (new_directory name) d,
    contains-append (directories_of u.entries) (name ∷ []) d,
  )

  contains-add_dir : IsTracked u → contains (directories_of (add_dir name u).entries) name ≡ true
  unfolding add_dir
  contains-add_dir t = ground (
    arith,
    t name,
    contains-entries u.entries (new_directory name) name,
    contains-append (directories_of u.entries) (name ∷ []) name,
  )

  add_dir-SameNotes : SameNotes u (add_dir name u)
  unfolding add_dir
  add_dir-SameNotes = (ground arith, ground arith)

-- All directories of a list are in the archive.
abbrev pub Has : Upload → List Text → Type 0
Has u ds = All (λ d. contains (directories_of u.entries) d ≡ true) ds

Has-Grows : (u u' : Upload) (ds : List Text) → Grows u u' → Has u ds → Has u' ds
Has-Grows u u' [] g h = tt
Has-Grows u u' (d ∷ ds) g h = (g d h.0, Has-Grows u u' ds g h.1)

-- The walk ends, and adds every parent that is not there.
lead_dirs_lem :
    (fuel : ℕ) (p : PurePath) (u : Upload)
    → IsRelative p
    → length p.parts ≤ fuel
    → IsTracked u
    → (u' : Upload) × (lead_dirs fuel p u ≡ some u')
      × IsTracked u'
      × Grows u u'
      × SameNotes u u'
      × Has u' (named_parents fuel p)
unfolding lead_dirs named_parents
lead_dirs_lem zero p u r l t =
    (u, rw (as_posix-eq-dot p r, empty_of_length p.parts l) refl, t, λ d h. h, (refl, refl), tt)
lead_dirs_lem (suc fuel) p u r l t = elim (Bool-cases (p.parts == [])) [
  | inl e ↦ (u, rw (as_posix-eq-dot p r, e) refl, t, λ d h. h, (refl, refl), rw e tt)
  | inr e ↦
      let u₁ : Upload = add_dir (as_posix p) u in
      let (u', eq, t', g, (s₀, s₁), h) =
        lead_dirs_lem fuel (parent p) u₁ (parent-IsRelative p r) (length-init p.parts fuel l)
          (add_dir-IsTracked (as_posix p) u t) in
      let (a₀, a₁) = add_dir-SameNotes (as_posix p) u in
      (
        u',
        rw (as_posix-eq-dot p r, e) eq,
        t',
        λ d k. g d (add_dir-Grows (as_posix p) u d k),
        (s₀ ∙ a₀, s₁ ∙ a₁),
        rw e (g (as_posix p) (contains-add_dir (as_posix p) u t), h),
      )
]

-- What can be uploaded: nothing, which is a directory to make, a file, or a directory
abbrev pub Known : Option Source → Type 0
Known none = Unit
Known (some (regular c t)) = Unit
Known (some (directory t)) = Unit
Known (some (unknown t)) = ⊥

module _ (digest : Bytes → Text) (resolve : PurePath → PurePath) (now : ℕ → ℕ) where
  entry-Grows : (u u' : Upload) (e : Entry) → u'.entries ≡ u.entries ++ e ∷ [] → Grows u u'
  entry-Grows u u' e eq d h = ground (
    arith,
    contains-entries u.entries e d,
    contains-append (directories_of u.entries) (directories_of (e ∷ [])) d,
    ap (λ (es : List Entry). contains (directories_of es) d) eq,
  )

  entry-IsTracked : (u u' : Upload) → IsTracked u → Grows u u' → u'.dirs ≡ u.dirs → IsTracked u'
  entry-IsTracked u u' t g e d h = g d (t d (rw e at h))

  add_file_lem :
      (host_file : PurePath) (name : Text) (o : Option Source) (u : Upload)
      → Known o
      → (u' : Upload) × (e : Entry) × (add_file digest resolve now host_file name o u ≡ some u')
        × (u'.entries ≡ u.entries ++ e ∷ [])
        × (u'.dirs ≡ u.dirs)
  unfolding add_file add_source note_stat
  add_file_lem host_file name none u k = (_, new_directory name, refl, refl, refl)
  add_file_lem host_file name (some (regular c t)) u k =
      (_, member name (regular c t), refl, refl, refl)
  add_file_lem host_file name (some (directory t)) u k =
      (_, member name (directory t), refl, refl, refl)
  add_file_lem host_file name (some (unknown t)) u k = absurd k

  module _ (host : PurePath → Option Source) where
    add_upload_lem :
        (host_file : PurePath) (name : Text) (u : Upload)
        → starts_with name (codes "/") ≡ false
        → Known (host host_file)
        → IsTracked u
        → (u' : Upload) × (add_upload digest resolve now host host_file name u ≡ some u')
          × IsTracked u'
          × Grows u u'
          × Has u' (parents_of name)
    unfolding add_upload
    add_upload_lem host_file name u r k t =
        let p : PurePath = parent (parse name) in
        let (u₁, e₁, t₁, g₁, _, h₁) =
          lead_dirs_lem (length p.parts) p u
            (parent-IsRelative (parse name) (parse-IsRelative name r)) (omega arith) t in
        let (u₂, e, e₂, es, ds) = add_file_lem host_file name (host host_file) u₁ k in
        let g₂ = entry-Grows u₁ u₂ e es in
        (
          u₂,
          rw e₁ e₂,
          entry-IsTracked u₁ u₂ t₁ g₂ ds,
          λ d h. g₂ d (g₁ d h),
          Has-Grows u₁ u₂ (parents_of name) g₂ h₁,
        )

    create_tar-Has :
        (files : List (PurePath × Text)) (u : Upload)
        → All (λ f. (starts_with f.1 (codes "/") ≡ false) × Known (host f.0)) files
        → IsTracked u
        → (u' : Upload) × (create_tar digest resolve now host files u ≡ some u')
          × Grows u u'
          × All (λ f. Has u' (parents_of f.1)) files
    unfolding create_tar
    create_tar-Has [] u k t = (u, refl, λ d h. h, tt)
    create_tar-Has ((host_file, name) ∷ files) u k t =
        let (u₁, e₁, t₁, g₁, h₁) = add_upload_lem host_file name u k.0.0 k.0.1 t in
        let (u₂, e₂, g₂, h₂) = create_tar-Has files u₁ k.1 t₁ in
        (u₂, rw e₁ e₂, λ d h. g₂ d (g₁ d h), (Has-Grows u₁ u₂ (parents_of name) g₂ h₁, h₂))

    -- If there are files to upload, their archive names are relative, and nothing on the host but
    -- files and directories is among them, an archive is put into the container, and it has all
    -- directories that lead to each of the files for themselves.
    pub upload-Has :
        (f : PurePath × Text) (files : List (PurePath × Text)) (u : Upload)
        → All (λ f. (starts_with f.1 (codes "/") ≡ false) × Known (host f.0)) (f ∷ files)
        → (u' : Upload) × (upload digest resolve now host (f ∷ files) none u
            ≡ some (u', some (made u'.entries)))
          × All (λ f. Has u' (parents_of f.1)) (f ∷ files)
    unfolding upload
    upload-Has f files u k =
        let (u', e, _, h) =
          create_tar-Has (f ∷ files) (record u { entries = []; dirs = [] }) k (λ d h. h) in
        (u', rw e refl, h)
