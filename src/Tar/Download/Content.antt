-- ===== src/Tar/Download/Content.antt =====
-- What a download leaves in the host's working directory.
use cincan_command.Prelude.{
  Text, codes, contains, length, length-append, Bool, true, false, Bool-cases, Option, none, some,
  List, [], ◌∷◌, ◌++◌, ◌==◌, nat_eq, list_eq, if◌then◌else◌, ◌≡◌, ◌≢◌, refl, ap, ◌∙◌, arith, All,
  inl, inr,
}
use cincan_command.Tar.Download.{
  Bytes, Node, file, directory, Host, put, make_directory, make_directories, unlink, rename,
  write_file, write_node, temp_name, replace, same_or_replace, over_existing, save_file, is_none,
}

abbrev pub NoFile : Option Node → Type 0
NoFile none = Unit
NoFile (some directory) = Unit
NoFile (some (file c)) = ⊥

abbrev pub NoDirectory : Option Node → Type 0
NoDirectory none = Unit
NoDirectory (some directory) = ⊥
NoDirectory (some (file c)) = Unit

NoFile-if : (b : Bool) (n : Option Node) → NoFile n → NoFile (if b then some directory else n)
NoFile-if true n h = tt
NoFile-if false n h = h

make_directory_lem :
    (k : Text) (h : Host) (n : Option Node)
    → h k ≡ n
    → NoFile n
    → (h' : Host) × (make_directory k h n ≡ some h')
      × ((j : Text) → k ≢ j → h' j ≡ h j)
      × ((j : Text) → NoFile (h j) → NoFile (h' j))
unfolding make_directory
make_directory_lem k h none e f =
    (put k (some directory) h, refl, λ j d. ground arith, λ j g. NoFile-if (k == j) (h j) g)
make_directory_lem k h (some directory) e f = (h, refl, λ j d. refl, λ j g. g)
make_directory_lem k h (some (file c)) e f = absurd f

-- If no file is in the way, the directories are made, and nothing else changes.
make_directories_lem :
    (ks : List Text) (h : Host)
    → All (λ k. NoFile (h k)) ks
    → (h' : Host) × (make_directories ks h ≡ some h')
      × ((j : Text) → contains ks j ≡ false → h' j ≡ h j)
      × ((j : Text) → NoFile (h j) → NoFile (h' j))
unfolding make_directories
make_directories_lem [] h f = (h, refl, λ j d. refl, λ j g. g)
make_directories_lem (k ∷ ks) h f =
    let (h₁, e₁, same₁, keep₁) = make_directories_lem ks h f.1 in
    let (h₂, e₂, same₂, keep₂) = make_directory_lem k h₁ (h₁ k) refl (keep₁ k f.0) in
    (
      h₂,
      rw e₁ e₂,
      λ j d. same₂ j (λ e. ground arith) ∙ same₁ j (ground arith),
      λ j g. keep₂ j (keep₁ j g),
    )

write_node_lem :
    (k : Text) (c : Bytes) (h : Host) (n : Option Node)
    → NoDirectory n
    → write_node k c h n ≡ some (put k (some (file c)) h)
unfolding write_node
write_node_lem k c h none f = refl
write_node_lem k c h (some directory) f = absurd f
write_node_lem k c h (some (file old)) f = refl

pub temp_name-ne : (k : Text) → k ++ codes "_TEMP" ≢ k
temp_name-ne k e = omega (arith, length-append k (codes "_TEMP"), ap (λ (v : Text). length v) e)

module _ (digest : Bytes → Text) where
  replace_lem :
      (k : Text) (c old : Bytes) (h : Host)
      → h k ≡ some (file old)
      → h (temp_name digest k) ≡ some (file c)
      → (h' : Host) × (replace digest k h ≡ some h')
        × (h' k ≡ some (file c))
        × (h' (temp_name digest k) ≡ none)
        × ((j : Text) → k ≢ j → temp_name digest k ≢ j → h' j ≡ h j)
  unfolding replace unlink rename
  replace_lem k c old h e t = (
    put (temp_name digest k) none (put k (put k none h (temp_name digest k)) (put k none h)),
    rw e refl,
    ground (arith, temp_name-ne k),
    ground (arith, temp_name-ne k),
    λ j n m. ground arith,
  )

  -- The file in place of an existing one, once the temporary file is written.
  over_existing_lem :
      (k : Text) (c old : Bytes) (modified : Bool) (h : Host)
      → (digest c ≡ digest old → c ≡ old)
      → h k ≡ some (file old)
      → h (temp_name digest k) ≡ some (file c)
      → (h' : Host) × (over_existing digest k c modified h ≡ some h')
        × (h' k ≡ some (file c))
        × (h' (temp_name digest k) ≡ none)
        × ((j : Text) → k ≢ j → temp_name digest k ≢ j → h' j ≡ h j)
  unfolding over_existing same_or_replace unlink
  over_existing_lem k c old true h inj e t = replace_lem k c old h e t
  over_existing_lem k c old false h inj e t = elim (Bool-cases (digest c == digest old)) [
    | inr d ↦ rw e (rw d (replace_lem k c old h e t))
    | inl d ↦ (
      put (temp_name digest k) none h,
      rw e (rw (d, t) refl),
      ground (arith, temp_name-ne k, inj),
      ground arith,
      λ j n m. ground arith,
    )
  ]

  -- What a saved file leaves: its content is there, the temporary file is gone or untouched, and
  -- nothing else has changed but that the directories above the file are there.
  abbrev pub Saved : Text → List Text → Bytes → Host → Host → Type 0
  Saved k dirs c h h' =
      (h' k ≡ some (file c))
      × (h' (temp_name digest k) ≡ (if is_none (h k) then h (temp_name digest k) else none))
      × ((j : Text) → k ≢ j → temp_name digest k ≢ j → contains dirs j ≡ false → h' j ≡ h j)

  save_at_node :
      (k : Text) (dirs : List Text) (c : Bytes) (modified : Bool) (h : Host) (n : Option Node)
      → h k ≡ n
      → ((old : Bytes) → n ≡ some (file old) → digest c ≡ digest old → c ≡ old)
      → All (λ d. NoFile (h d)) dirs
      → contains dirs k ≡ false
      → contains dirs (temp_name digest k) ≡ false
      → NoDirectory n
      → NoDirectory (h (temp_name digest k))
      → (h' : Host) × (save_file digest k dirs c modified h ≡ some h') × Saved k dirs c h h'
  unfolding save_file write_file
  save_at_node k dirs c modified h none e inj free out out' f g =
      let (h₁, e₁, same, _) = make_directories_lem dirs h free in
      let w = write_node_lem k c h₁ (h₁ k) (rw (same k out, e) tt) in
      (
        put k (some (file c)) h₁,
        rw (e₁, e) w,
        (
          ground arith,
          rw e (ground (arith, temp_name-ne k, same (temp_name digest k) out')),
          λ j n m o. ground (arith, same j o),
        ),
      )
  save_at_node k dirs c modified h (some directory) e inj free out out' f g = absurd f
  save_at_node k dirs c modified h (some (file old)) e inj free out out' f g =
      let t = temp_name digest k in
      let (h₁, e₁, same, _) = make_directories_lem dirs h free in
      let w = write_node_lem t c h₁ (h₁ t) (rw (same t out') g) in
      let h₂ : Host = put t (some (file c)) h₁ in
      let (h₃, e₃, here, gone, others) =
        over_existing_lem k c old modified h₂ (inj old refl)
          (ground (arith, temp_name-ne k, same k out)) (ground arith) in
      (
        h₃,
        rw (e₁, e) (rw w e₃),
        (here, rw e gone, λ j n m o. others j n m ∙ ground (arith, same j o)),
      )

  -- A regular file is saved with its content, whether there is one of its name or not, and whether
  -- the stats tell that it has changed or the hashes have to. The temporary file is gone, or
  -- untouched if it was not needed, and nothing else has changed but the file's directories. The
  -- conditions: no file has the name of one of the directories, and neither the file nor the
  -- temporary file is one of them or has the name of a directory that is there; equal hashes of the
  -- old and the new content mean equal content.
  pub save_file_lem :
      (k : Text) (dirs : List Text) (c : Bytes) (modified : Bool) (h : Host)
      → ((old : Bytes) → h k ≡ some (file old) → digest c ≡ digest old → c ≡ old)
      → All (λ d. NoFile (h d)) dirs
      → contains dirs k ≡ false
      → contains dirs (temp_name digest k) ≡ false
      → NoDirectory (h k)
      → NoDirectory (h (temp_name digest k))
      → (h' : Host) × (save_file digest k dirs c modified h ≡ some h') × Saved k dirs c h h'
  save_file_lem k dirs c modified h inj = save_at_node k dirs c modified h (h k) refl inj
