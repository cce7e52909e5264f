-- ===== src/Images/Source.antt =====
-- Which images `get_image` of cincan/image_fetcher.py returns.
use cincan_command.Prelude.{
  ℕ, zero, suc, Text, Bool, true, false, Option, none, some, nat_eq, list_eq, ◌≡◌, ◌≢◌, ◌⊎◌, inl,
  inr, refl, ap, ◌∙◌, arith, Bool-cases,
}
use cincan_command.Images.{
  Pull, pulled, image_not_found, not_found, api_error, keyboard_interrupt, Client, Names, is_cincan,
  name_tag, full_name, is_custom, Outcome, image, exits, look_up, after_dev_pull, try_dev,
  after_pull, get_image,
}

module _ (names : Names) (client : Client) where
  open names use {stable_tag, dev_tag}
  open client use {State, Image, get, pull}

  -- The tags that a returned image may have: the initial one, and for an image of the registry
  -- with the stable tag also the development one.
  abbrev pub TagFor : Text → Text → Type 0
  TagFor img tag =
      (tag ≡ (name_tag names img).1)
      ⊎ ((tag ≡ dev_tag) × ((name_tag names img).1 ≡ stable_tag) × (is_cincan names img ≡ true))

  -- `i` is what the client had under the image's name and such a tag.
  abbrev pub Found : Text → Image → Type 0
  Found img i =
      (t : State) × (tag : Text) × ((get (full_name names (name_tag names img).0 tag) t).0 ≡ some i)
      × TagFor img tag

  module _ (img : Text) where
    abbrev Good : Outcome names client × State → Type 0
    Good r = (i : Image) → r.0 ≡ image i → Found img i

    abbrev name : Text
    name = (name_tag names img).0

    image-Good :
        (tag : Text) (t s : State) (j : Image)
        → (get (full_name names name tag) t).0 ≡ some j
        → TagFor img tag
        → Good (image j, s)
    image-Good tag t s j e ok i h =
        let same : j ≡ i = ground arith in (t, tag, e ∙ ap (λ (k : Image). some k) same, ok)

    module _ (again : State → Outcome names client × State) (h : (s : State) → Good (again s)) where
      look_up-Good :
          (tag : Text) (t : State) (r : Option Image × State)
          → get (full_name names name tag) t ≡ r
          → TagFor img tag
          → Good (look_up names client again r)
      unfolding look_up
      look_up-Good tag t (some j, s) e ok =
          image-Good tag t s j (ap (λ (r : Option Image × State). r.0) e) ok
      look_up-Good tag t (none, s) e ok = h s

      after_dev_pull-Good :
          (r : Pull × State)
          → TagFor img dev_tag
          → Good (after_dev_pull names client again (full_name names name dev_tag) r)
      unfolding after_dev_pull
      after_dev_pull-Good (pulled, s) ok = look_up-Good dev_tag s _ refl ok
      after_dev_pull-Good (image_not_found, s) ok = λ i e. cc
      after_dev_pull-Good (not_found, s) ok = λ i e. cc
      after_dev_pull-Good (api_error, s) ok = λ i e. cc
      after_dev_pull-Good (keyboard_interrupt, s) ok = λ i e. cc

      try_dev-Good :
          (t : State) (r : Option Image × State)
          → get (full_name names name dev_tag) t ≡ r
          → TagFor img dev_tag
          → Good (try_dev names client again name r)
      unfolding try_dev
      try_dev-Good t (some j, s) e ok =
          image-Good dev_tag t s j (ap (λ (r : Option Image × State). r.0) e) ok
      try_dev-Good t (none, s) e ok = after_dev_pull-Good (pull name dev_tag s) ok

      after_pull-Good :
          (r : Pull × State)
          → Good (after_pull names client again (is_custom names img) name (name_tag names img).1 r)
      unfolding after_pull
      after_pull-Good (pulled, s) = look_up-Good _ s _ refl (inl refl)
      after_pull-Good (image_not_found, s) = λ i e. cc
      after_pull-Good (not_found, s) = elim (Bool-cases (is_custom names img)) [
        | inl c ↦ rw c (λ i e. cc)
        | inr c ↦
            let tag : (name_tag names img).1 ≡ stable_tag = ground arith in
            let own : is_cincan names img ≡ true = ground arith in
            rw c (try_dev-Good s _ refl (inr (refl, tag, own)))
      ]
      after_pull-Good (api_error, s) = λ i e. cc
      after_pull-Good (keyboard_interrupt, s) = λ i e. cc

    get_image-Good :
        (depth : ℕ) (pull_first : Bool) (s : State)
        → Good (get_image names client depth img pull_first s)
    unfolding get_image
    get_image-Good zero pull_first s = λ i e. cc
    get_image-Good (suc depth) true s =
        after_pull-Good (λ t. get_image names client depth img true t) (get_image-Good depth true)
          (pull name _ s)
    get_image-Good (suc depth) false s =
        look_up-Good (λ t. get_image names client depth img true t) (get_image-Good depth true) _ s
          _ refl (inl refl)

  -- An image that is returned is one that the client had under the asked name, with the asked tag,
  -- or with the development tag if the tag was the stable one and the image the registry's own.
  pub get_image-Found :
      (img : Text) (depth : ℕ) (pull_first : Bool) (s : State) (i : Image)
      → (get_image names client depth img pull_first s).0 ≡ image i
      → Found img i
  get_image-Found = get_image-Good

  -- With another tag than the stable one, or an image from elsewhere, an image that is pulled first
  -- and whose tag is not found ends the program, and the client is asked for nothing more.
  pub get_image-custom :
      (img : Text) (depth : ℕ) (s s' : State)
      → ((name_tag names img).1 ≢ stable_tag) ⊎ (is_cincan names img ≡ false)
      → pull (name_tag names img).0 (name_tag names img).1 s ≡ (not_found, s')
      → get_image names client (suc depth) img true s ≡ (exits 1, s')
  unfolding get_image after_pull
  get_image-custom img depth s s' (inl other) e = rw e (ground arith)
  get_image-custom img depth s s' (inr other) e = rw e (ground arith)
