-- ===== src/Tar/Upload/Members.antt =====
-- What the archive of `__create_tar` of cincan/tar_tool.py has of the host's files, and what the log
-- has of them.
use cincan_command.Prelude.{
  codes, ◌==◌, ℕ, zero, suc, Text, contains, length, Bool-cases, Option, Option-cases, none, some,
  List, [], ◌∷◌, ◌++◌, append-nil, append_assoc, nat_eq, list_eq, ◌≡◌, inl, inr, refl, sym, ap, ◌∙◌,
  arith,
}
use cincan_command.Path.{PurePath, parse, as_posix, parent}
use cincan_command.Tar.Download.{Bytes}
use cincan_command.Tar.Upload.{
  Source, regular, directory, unknown, Entry, new_directory, member, Logged, Upload, add_dir,
  lead_dirs, add_source, add_file, add_upload, create_tar, note_stat, Content, made, upload,
}

-- The members of an archive that are made of something on the host
abbrev pub members_of : List Entry → List (Text × Source)
members_of [] = []
members_of (new_directory name ∷ es) = members_of es
members_of (member name s ∷ es) = (name, s) ∷ members_of es

members_of-append : (es es' : List Entry) → members_of (es ++ es') ≡ members_of es ++ members_of es'
members_of-append [] es' = refl
members_of-append (new_directory name ∷ es) es' = members_of-append es es'
members_of-append (member name s ∷ es) es' = rw (members_of-append es es')

-- What stands on the host under the files, in their order
abbrev source_of : Text → Option Source → List (Text × Source)
source_of name none = []
source_of name (some s) = (name, s) ∷ []

abbrev pub sources_of : (PurePath → Option Source) → List (PurePath × Text) → List (Text × Source)
sources_of host [] = []
sources_of host ((host_file, name) ∷ rest) = source_of name (host host_file) ++ sources_of host rest

add_dir-same :
    (name : Text) (u : Upload)
    → (members_of (add_dir name u).entries ≡ members_of u.entries)
      × ((add_dir name u).in_files ≡ u.in_files)
unfolding add_dir
add_dir-same name u = elim (Bool-cases (contains u.dirs name)) [
  | inl e ↦ rw e (refl, refl)
  | inr e ↦ rw e (
    members_of-append u.entries (new_directory name ∷ []) ∙ append-nil (members_of u.entries),
    refl,
  )
]

lead_dirs-same :
    (fuel : ℕ) (p : PurePath) (u u' : Upload)
    → lead_dirs fuel p u ≡ some u'
    → (members_of u'.entries ≡ members_of u.entries) × (u'.in_files ≡ u.in_files)
unfolding lead_dirs
lead_dirs-same zero p u u' h = elim (Bool-cases (as_posix p == codes ".")) [
  | inr e ↦ let h' = rw e at h in cc h'
  | inl e ↦ let h' = rw e at h in let same : u ≡ u' = ground arith in rw (← same) (refl, refl)
]
lead_dirs-same (suc fuel) p u u' h = elim (Bool-cases (as_posix p == codes ".")) [
  | inl e ↦ let h' = rw e at h in let same : u ≡ u' = ground arith in rw (← same) (refl, refl)
  | inr e ↦
      let h' = rw e at h in
      let (m, l) = lead_dirs-same fuel (parent p) (add_dir (as_posix p) u) u' h' in
      let (m', l') = add_dir-same (as_posix p) u in (m ∙ m', l ∙ l')
]

module _ (digest : Bytes → Text) (resolve : PurePath → PurePath) (now : ℕ → ℕ) where
  abbrev log_of : PurePath → Option Source → List Logged
  log_of host_file (some (regular c t)) = (resolve host_file, digest c, t) ∷ []
  log_of host_file _ = []

  -- The log's entries of the regular files
  abbrev pub logs_of : (PurePath → Option Source) → List (PurePath × Text) → List Logged
  logs_of host [] = []
  logs_of host ((host_file, name) ∷ rest) = log_of host_file (host host_file) ++ logs_of host rest

  -- From one state to another, these members and these entries of the log have been added.
  abbrev Adds : Upload → List (Text × Source) → List Logged → Upload → Type 0
  Adds u ms ls u' =
      (members_of u'.entries ≡ members_of u.entries ++ ms) × (u'.in_files ≡ u.in_files ++ ls)

  entry-Adds :
      (u u' : Upload) (e : Entry) (ls : List Logged)
      → u'.entries ≡ u.entries ++ e ∷ []
      → u'.in_files ≡ u.in_files ++ ls
      → Adds u (members_of (e ∷ [])) ls u'
  entry-Adds u u' e ls h l = (ap members_of h ∙ members_of-append u.entries (e ∷ []), l)

  add_file-Adds :
      (host_file : PurePath) (name : Text) (o : Option Source) (u u' : Upload)
      → add_file digest resolve now host_file name o u ≡ some u'
      → Adds u (source_of name o) (log_of host_file o) u'
  unfolding add_file add_source note_stat
  add_file-Adds host_file name none u u' h =
      entry-Adds u u' (new_directory name) [] (ground arith) (ground (arith, append-nil u.in_files))
  add_file-Adds host_file name (some (regular c t)) u u' h =
      entry-Adds u u' (member name (regular c t)) ((resolve host_file, digest c, t) ∷ [])
        (ground arith) (ground arith)
  add_file-Adds host_file name (some (directory t)) u u' h =
      entry-Adds u u' (member name (directory t)) [] (ground arith)
        (ground (arith, append-nil u.in_files))
  add_file-Adds host_file name (some (unknown t)) u u' h = cc h

  Adds-trans :
      (u u₁ u₂ : Upload) (ms ms' : List (Text × Source)) (ls ls' : List Logged)
      → Adds u ms ls u₁
      → Adds u₁ ms' ls' u₂
      → Adds u (ms ++ ms') (ls ++ ls') u₂
  Adds-trans u u₁ u₂ ms ms' ls ls' (m, l) (m', l') = (
    m' ∙ ap (λ v. v ++ ms') m ∙ append_assoc (members_of u.entries) ms ms',
    l' ∙ ap (λ v. v ++ ls') l ∙ append_assoc u.in_files ls ls',
  )

  module _ (host : PurePath → Option Source) where
    create_tar-Adds :
        (files : List (PurePath × Text)) (u u' : Upload)
        → create_tar digest resolve now host files u ≡ some u'
        → Adds u (sources_of host files) (logs_of host files) u'
    unfolding create_tar add_upload
    create_tar-Adds [] u u' h =
        let same : u ≡ u' = ground arith in
        rw (← same) (sym (append-nil (members_of u.entries)), sym (append-nil u.in_files))
    create_tar-Adds ((host_file, name) ∷ files) u u' h =
        let p = parent (parse name) in
        elim (Option-cases (lead_dirs (length p.parts) p u)) [
          | inl e ↦ let h' = rw e at h in cc h'
          | inr (u₁, e) ↦
              elim (Option-cases (add_file digest resolve now host_file name (host host_file) u₁)) [
                | inl e' ↦ let h' = rw (e, e') at h in cc h'
                | inr (u₂, e') ↦
                    let (m₁, l₁) = lead_dirs-same (length p.parts) p u u₁ e in
                    let (m₂, l₂) = add_file-Adds host_file name (host host_file) u₁ u₂ e' in
                    Adds-trans u u₂ u' (source_of name (host host_file)) (sources_of host files)
                      (log_of host_file (host host_file)) (logs_of host files)
                      (
                        m₂ ∙ ap (λ v. v ++ source_of name (host host_file)) m₁,
                        l₂ ∙ ap (λ v. v ++ log_of host_file (host host_file)) l₁,
                      )
                      (create_tar-Adds files u₂ u' (rw (e, e') at h))
              ]
        ]

    -- If an upload of files returns, its archive has been put into the container. But for
    -- directories for themselves, the archive has exactly what stands on the host under the files,
    -- under their names and in their order; and the log gets exactly the regular ones among them,
    -- with the digest of their content and their own time.
    pub upload-members :
        (f : PurePath × Text) (fs : List (PurePath × Text)) (u u' : Upload)
        (content : Option Content)
        → upload digest resolve now host (f ∷ fs) none u ≡ some (u', content)
        → (content ≡ some (made u'.entries))
          × (members_of u'.entries ≡ sources_of host (f ∷ fs))
          × (u'.in_files ≡ u.in_files ++ logs_of host (f ∷ fs))
    unfolding upload
    upload-members f fs u u' content h =
        let start : Upload = record u { entries = []; dirs = [] } in
        elim (Option-cases (create_tar digest resolve now host (f ∷ fs) start)) [
          | inl e ↦ let h' = rw e at h in cc h'
          | inr (u₁, e) ↦
              let h' = rw e at h in
              let same : u₁ ≡ u' = ground arith in
              let (m, l) =
                create_tar-Adds (f ∷ fs) start u' (e ∙ ap (λ (v : Upload). some v) same) in
              (ground arith, m, l)
        ]
