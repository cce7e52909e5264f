-- ===== src/Tar/Download/Stored.antt =====
-- What `__download_file_set` of cincan/tar_tool.py leaves on the host of the files that it logs.
use cincan_command.Prelude.{
  Text, Bool, Bool-cases, true, false, Option, Option-cases, none, some, List, [], ◌∷◌, ◌==◌,
  nat_eq, list_eq, ◌≡◌, ◌≢◌, refl, arith, inl, inr,
}
use cincan_command.Tar.Download.Content.{temp_name-ne}
use cincan_command.Tar.Download.{
  Bytes, Node, file, directory, Host, put, make_directory, make_directories, unlink, unlink_node,
  rename, write_file, write_node, temp_name, replace, same_or_replace, over_existing, save_file,
  save_directory, is_none,
}

-- What is there stays.
abbrev pub Stays : Text → Host → Host → Type 0
Stays j h h' = (x : Node) → h j ≡ some x → h' j ≡ some x

make_directory-Stays :
    (k : Text) (h h' : Host) (j : Text) → make_directory k h (h k) ≡ some h' → Stays j h h'
unfolding make_directory
make_directory-Stays k h h' j e x s = elim (Option-cases (h k)) [
  | inl n ↦
      let e' = rw n at e in
      let same : put k (some directory) h ≡ h' = ground arith in rw (← same) (ground arith)
  | inr (y, n) ↦ go y n
]
  where
    go : (y : Node) → h k ≡ some y → h' j ≡ some x
    go directory n = let e' = rw n at e in let same : h ≡ h' = ground arith in rw (← same) s
    go (file c) n = let e' = rw n at e in cc e'

make_directories-Stays :
    (ks : List Text) (h h' : Host) (j : Text) → make_directories ks h ≡ some h' → Stays j h h'
unfolding make_directories
make_directories-Stays [] h h' j e x s = let same : h ≡ h' = ground arith in rw (← same) s
make_directories-Stays (k ∷ ks) h h' j e x s = elim (Option-cases (make_directories ks h)) [
  | inl n ↦ let e' = rw n at e in cc e'
  | inr (h₁, n) ↦
      make_directory-Stays k h₁ h' j (rw n at e) x (make_directories-Stays ks h h₁ j n x s)
]

write_node_inv :
    (k : Text) (c : Bytes) (h h' : Host) (n : Option Node)
    → write_node k c h n ≡ some h'
    → put k (some (file c)) h ≡ h'
unfolding write_node
write_node_inv k c h h' none e = ground arith
write_node_inv k c h h' (some directory) e = cc e
write_node_inv k c h h' (some (file old)) e = ground arith

unlink_node_inv :
    (k : Text) (h h' : Host) (n : Option Node) → unlink_node k h n ≡ some h' → put k none h ≡ h'
unfolding unlink_node
unlink_node_inv k h h' none e = cc e
unlink_node_inv k h h' (some directory) e = cc e
unlink_node_inv k h h' (some (file old)) e = ground arith

module _ (digest : Bytes → Text) where
  -- On the host there is a file of a digest.
  abbrev pub OnDisk : Host → Text → Text → Type 0
  OnDisk h k md = (b : Bytes) × (h k ≡ some (file b)) × (digest b ≡ md)

  -- What a saving to a path does: a file of the content's digest is there, and what else was there
  -- is there still, but for the temporary file.
  abbrev pub Stores : Text → Bytes → Host → Host → Type 0
  Stores k c h h' =
      OnDisk h' k (digest c) × ((j : Text) → k ≢ j → temp_name digest k ≢ j → Stays j h h')

  replaced-Stores :
      (k : Text) (c : Bytes) (h : Host)
      → h (temp_name digest k) ≡ some (file c)
      → Stores k c h (rename (temp_name digest k) k (put k none h))
  unfolding rename
  replaced-Stores k c h t =
      ((c, ground (arith, temp_name-ne k), refl), λ j n m x s. ground (arith, n, m, s))

  replace_inv :
      (k : Text) (c : Bytes) (h h' : Host)
      → h (temp_name digest k) ≡ some (file c)
      → replace digest k h ≡ some h'
      → Stores k c h h'
  unfolding replace unlink
  replace_inv k c h h' t e = elim (Option-cases (unlink k h)) [
    | inl n ↦ let e' = rw n at e in cc e'
    | inr (h₁, n) ↦
        let e' = rw n at e in
        let gone : put k none h ≡ h₁ = unlink_node_inv k h h₁ (h k) n in
        let same : rename (temp_name digest k) k h₁ ≡ h' = ground arith in
        rw (← same, ← gone) (replaced-Stores k c h t)
  ]

  unlink-Stores :
      (k : Text) (c old : Bytes) (h h' : Host)
      → h k ≡ some (file old)
      → digest old ≡ digest c
      → unlink (temp_name digest k) h ≡ some h'
      → Stores k c h h'
  unfolding unlink
  unlink-Stores k c old h h' o d e =
      let gone : put (temp_name digest k) none h ≡ h' =
        unlink_node_inv (temp_name digest k) h h' _ e in
      rw (← gone) ((old, ground (arith, temp_name-ne k), d), λ j n m x s. ground (arith, n, m, s))

  over_existing_inv :
      (k : Text) (c : Bytes) (modified : Bool) (h h' : Host) (n : Option Node)
      → h k ≡ n
      → h (temp_name digest k) ≡ some (file c)
      → over_existing digest k c modified h ≡ some h'
      → Stores k c h h'
  unfolding over_existing same_or_replace
  over_existing_inv k c true h h' n o t e = replace_inv k c h h' t e
  over_existing_inv k c false h h' none o t e = let e' = rw o at e in cc e'
  over_existing_inv k c false h h' (some directory) o t e = let e' = rw o at e in cc e'
  over_existing_inv k c false h h' (some (file old)) o t e =
      elim (Bool-cases (digest c == digest old)) [
        | inl d ↦ let e' = rw (o, d) at e in unlink-Stores k c old h h' o (ground arith) e'
        | inr d ↦ let e' = rw (o, d) at e in replace_inv k c h h' t e'
      ]

  write_file_inv :
      (k : Text) (c : Bytes) (h h' : Host)
      → write_file k c h ≡ some h'
      → put k (some (file c)) h ≡ h'
  unfolding write_file
  write_file_inv k c h h' e = write_node_inv k c h h' (h k) e

  pub save_file_inv :
      (k : Text) (dirs : List Text) (c : Bytes) (modified : Bool) (h h' : Host)
      → save_file digest k dirs c modified h ≡ some h'
      → Stores k c h h'
  unfolding save_file
  save_file_inv k dirs c modified h h' e = elim (Option-cases (make_directories dirs h)) [
    | inl n ↦ let e' = rw n at e in cc e'
    | inr (h₁, n) ↦ elim (Bool-cases (is_none (h k))) [
      | inl b ↦
          let w : write_file k c h₁ ≡ some h' = rw (n, b) at e in
          let same : put k (some (file c)) h₁ ≡ h' = write_file_inv k c h₁ h' w in
          rw (← same) (
            (c, ground arith, refl),
            λ j d m x s. ground (arith, d, make_directories-Stays dirs h h₁ j n x s),
          )
      | inr b ↦ elim (Option-cases (write_file (temp_name digest k) c h₁)) [
        | inl w ↦ let e' = rw (n, b, w) at e in cc e'
        | inr (h₂, w) ↦
            let e' : over_existing digest k c modified h₂ ≡ some h' = rw (n, b, w) at e in
            let same : put (temp_name digest k) (some (file c)) h₁ ≡ h₂ =
              write_file_inv (temp_name digest k) c h₁ h₂ w in
            let written : h₂ (temp_name digest k) ≡ some (file c) = rw (← same) (ground arith) in
            let (on_disk, stays) = over_existing_inv k c modified h₂ h' (h₂ k) refl written e' in
            (
              on_disk,
              λ j d m x s.
                  stays j d m x
                    (rw (← same) (ground (arith, m, make_directories-Stays dirs h h₁ j n x s))),
            )
      ]
    ]
  ]

  pub save_directory-Stays :
      (k : Text) (dirs : List Text) (h h' : Host) (j : Text)
      → save_directory digest k dirs h ≡ some h'
      → Stays j h h'
  unfolding save_directory
  save_directory-Stays k dirs h h' j e x s = elim (Bool-cases (is_none (h k))) [
    | inr b ↦ let e' = rw b at e in let same : h ≡ h' = ground arith in rw (← same) s
    | inl b ↦ elim (Option-cases (make_directories dirs h)) [
      | inl n ↦ let e' = rw (b, n) at e in cc e'
      | inr (h₁, n) ↦
          let e' : make_directory k h₁ (h₁ k) ≡ some h' = rw (b, n) at e in
          make_directory-Stays k h₁ h' j e' x (make_directories-Stays dirs h h₁ j n x s)
    ]
  ]
