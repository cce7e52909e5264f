-- ===== src/Frontend/Image/Laws.antt =====
-- Which image `ToolImage.__init__` of cincan/frontend.py takes for a name of the old namespace.
use cincan_command.Prelude.{
  ℕ, Text, codes, contains, contains-append, starts_with, starts_with-append, split, split_self,
  Free, Bool, Bool-cases, true, false, Option, some, [], ◌∷◌, ◌++◌, nat_eq, list_eq, ◌≡◌, ◌⊎◌, inl,
  inr, refl, ap, sym, ◌∙◌, append_assoc, arith,
}
use cincan_command.Images.{Client, Names, is_cincan, name_tag, full_name, Outcome, get_image}
use cincan_command.Images.Source.{Found, get_image-Found}
use cincan_command.Main.{from_image}
use cincan_command.Frontend.{basename, namespace_conversion, converted, convert_name}
use cincan_command.Frontend.Image.{
  name_or, name_of, converted_names, Settings, ToolImage, made, fetched_image, by_origin,
  tool_image,
}
use cincan_command.Versions.{VersionInfo}

basename-cincan : (x : Text) → Free b'/' x → basename (codes "cincan/" ++ x) ≡ x
unfolding basename split nat_eq
basename-cincan x f = rw (split_self b'/' x f) refl

-- The new name of an image of the old namespace
abbrev pub migrated : Text → Text → Text
migrated full_prefix x = (full_prefix ++ codes "/") ++ x

conversion-cincan :
    (full_prefix x : Text)
    → Free b'/' x
    → starts_with (codes "cincan/" ++ x) (full_prefix ++ codes "/") ≡ false
    → let img = codes "cincan/" ++ x in
      namespace_conversion false full_prefix img img
      ≡ (migrated full_prefix x, migrated full_prefix x)
unfolding namespace_conversion convert_name
conversion-cincan full_prefix x f n =
    let e : basename (codes "cincan/" ++ x) ≡ x = basename-cincan x f in
    let a : full_prefix ++ (codes "/" ++ x) ≡ migrated full_prefix x =
      sym (append_assoc full_prefix (codes "/") x) in
    let c : converted full_prefix (codes "cincan/" ++ x) ≡ migrated full_prefix x =
      ap (λ (v : Text). full_prefix ++ (codes "/" ++ v)) e ∙ a in
    ground (arith, n, c, starts_with-append (codes "cincan/") x)

module _ (names : Names) where
  open names use {stable_tag, dev_tag, full_prefix}

  name_tag-migrated :
      (x : Text)
      → Free b':' full_prefix
      → Free b':' x
      → name_tag names (migrated full_prefix x) ≡ (migrated full_prefix x, stable_tag)
  unfolding name_tag is_cincan
  name_tag-migrated x p f =
      let colon : contains (migrated full_prefix x) b':' ≡ false = ground (
        arith,
        contains-append (full_prefix ++ codes "/") x b':',
        contains-append full_prefix (codes "/") b':',
      ) in
      rw (colon, starts_with-append (full_prefix ++ codes "/") x) refl

  name-ne-nil :
      (x : Text) (other : Text) → name_or (migrated full_prefix x) other ≡ migrated full_prefix x
  name-ne-nil x other = go full_prefix
    where
      go : (p : Text) → name_or (migrated p x) other ≡ migrated p x
      go [] = refl
      go (c ∷ p) = refl

  module _ (client : Client) (s : Settings) (batch : Bool) (current : client.Image → Text)
      (info : Text → Option VersionInfo)
      (build : Text → client.State → Option client.Image × client.State) where
    fetched_image_inv :
        (name : Text) (r : Outcome names client × client.State) (a : ToolImage names client)
        → (fetched_image names client s batch current info build name r).0 ≡ made a
        → (r.0 ≡ Outcome.image a.image) × (a.name ≡ name) × (a.loaded_image ≡ true)
    unfolding fetched_image
    fetched_image_inv name (Outcome.image i, t) a e = (ground arith, ground arith, ground arith)
    fetched_image_inv name (Outcome.exits code, t) a e = cc
    fetched_image_inv name (Outcome.raises, t) a e = cc
    fetched_image_inv name (Outcome.recursion_error, t) a e = cc

    Had : Text → client.Image → Type 0
    Had name i =
        (u : client.State) × (tag : Text) × ((client.get (full_name names name tag) u).0 ≡ some i)
        × ((tag ≡ stable_tag) ⊎ (tag ≡ dev_tag))

    Found-Had :
        (name : Text) (i : client.Image)
        → name_tag names name ≡ (name, stable_tag)
        → Found names client name i
        → Had name i
    unfolding Had
    Found-Had name i e (u, tag, found, inl same) =
        let fst : (name_tag names name).0 ≡ name = ap (λ (q : Text × Text). q.0) e in
        let snd : (name_tag names name).1 ≡ stable_tag = ap (λ (q : Text × Text). q.1) e in
        (u, tag, rw fst at found, inl (same ∙ snd))
    Found-Had name i e (u, tag, found, inr (same, other, own)) =
        let fst : (name_tag names name).0 ≡ name = ap (λ (q : Text × Text). q.0) e in
        (u, tag, rw fst at found, inr same)

    by_origin-names :
        (depth : ℕ) (img : Text) (new : Text) (pull : Bool) (t : client.State)
        (a : ToolImage names client)
        → namespace_conversion s.docker_hub full_prefix img img ≡ (new, new)
        → name_or new new ≡ new
        → (by_origin names client s batch current info build depth img (from_image img pull) t).0
          ≡ made a
        → ((get_image names client depth new pull t).0 ≡ Outcome.image a.image)
          × (a.name ≡ new)
          × (a.loaded_image ≡ true)
    unfolding by_origin name_of converted_names
    by_origin-names depth img new pull t a same or e =
        let e' = rw (same, or) at e in
        fetched_image_inv new (get_image names client depth new pull t) a e'

    -- With another default remote than Docker Hub, a tool that is asked for as "cincan/x" and made
    -- gets the remote's own name for x, and an image that the client had under that name, with the
    -- stable tag or the development tag. The prefix of the remote is not "cincan", and there is no
    -- colon in it, and neither a colon nor a slash in x.
    pub tool_image-migrated :
        (depth : ℕ) (x : Text) (pull : Bool) (t : client.State) (a : ToolImage names client)
        → s.docker_hub ≡ false
        → starts_with (codes "cincan/" ++ x) (full_prefix ++ codes "/") ≡ false
        → Free b'/' x
        → Free b':' x
        → Free b':' full_prefix
        → (tool_image names client s batch current info build depth
            (codes "cincan/" ++ x)
            (from_image (codes "cincan/" ++ x) pull)
            t).0
          ≡ made a
        → (a.name ≡ migrated full_prefix x)
          × (a.loaded_image ≡ true)
          × (u : client.State) × (tag : Text) × ((client.get
                (full_name names (migrated full_prefix x) tag)
                u).0
              ≡ some a.image)
          × ((tag ≡ stable_tag) ⊎ (tag ≡ dev_tag))
    unfolding tool_image Had
    tool_image-migrated depth x pull t a hub new slash colon colon' e =
        let img : Text = codes "cincan/" ++ x in
        let new' : Text = migrated full_prefix x in
        let same : namespace_conversion s.docker_hub full_prefix img img ≡ (new', new') =
          rw hub (conversion-cincan full_prefix x slash new) in
        elim (Bool-cases s.connects) [
          | inr c ↦ let e' = rw c at e in cc e'
          | inl c ↦
              let e' = rw c at e in
              let (found, called, loaded) =
                by_origin-names depth img new' pull t a same (name-ne-nil x new') e' in
              let had = get_image-Found names client new' depth pull t a.image found in
              let (u, tag, known, either) =
                Found-Had new' a.image (name_tag-migrated x colon' colon) had in
              (called, loaded, u, tag, known, either)
        ]
