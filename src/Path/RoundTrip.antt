-- ===== src/Path/RoundTrip.antt =====
-- Reading back what `as_posix` gives, as cincan/command_log.py does with the paths of its entries.
use cincan_command.Prelude.{
  ℕ, Text, codes, split, join, keep, Free, All, List, [], ◌∷◌, ◌++◌, nat_eq, list_eq, ◌≡◌, ◌≢◌, ◌⊎◌,
  inl, inr, refl, arith, split_self,
}
use cincan_command.Path.{PurePath, parse, as_posix, is_part, join_parts, root_of}

-- The parts that a path can have: not empty, not ".", and with no slash.
pub record IsPart (s : Text) : Type 0 where
  pub ne_nil : s ≢ []
  pub ne_dot : s ≢ codes "."
  pub free : Free b'/' s

pub record IsPath (p : PurePath) : Type 0 where
  pub root_of_path : (p.root ≡ []) ⊎ (p.root ≡ codes "/") ⊎ (p.root ≡ codes "//")
  pub all_parts : All IsPart p.parts

split-append :
    (d : ℕ) (s v : Text) → Free d s → split d (s ++ d ∷ v) ≡ (s, (split d v).0 ∷ (split d v).1)
unfolding split
split-append d [] v f = ground arith
split-append d (c ∷ s) v f = rw (split-append d s v (ground arith)) (ground arith)

split-join :
    (d : ℕ) (s : Text) (rest : List Text)
    → Free d s
    → All (Free d) rest
    → split d (join d s rest) ≡ (s, rest)
split-join d s [] f fs = split_self d s f
split-join d s (t ∷ rest) f fs =
    rw (split-append d s (join d t rest) f, split-join d t rest fs.0 fs.1) refl

keep-parts : (xs : List Text) → All IsPart xs → keep is_part xs ≡ xs
unfolding is_part
keep-parts [] h = refl
keep-parts (x ∷ xs) h = rw (keep-parts xs h.1) (ground (arith, h.0))

All-Free : (xs : List Text) → All IsPart xs → All (Free b'/') xs
All-Free [] h = tt
All-Free (x ∷ xs) h = (h.0.free, All-Free xs h.1)

-- A text that begins with anything but a slash has no root.
root_of-other : (c : ℕ) (v : Text) → c ≢ b'/' → root_of (c ∷ v) ≡ []
unfolding root_of
root_of-other c [] n = ground arith
root_of-other c (d ∷ []) n = ground arith
root_of-other c (d ∷ e ∷ v) n = ground arith

root_of-slash : (c : ℕ) (v : Text) → c ≢ b'/' → root_of (b'/' ∷ c ∷ v) ≡ codes "/"
unfolding root_of
root_of-slash c [] n = ground arith
root_of-slash c (d ∷ v) n = ground arith

root_of-slashes : (c : ℕ) (v : Text) → c ≢ b'/' → root_of (b'/' ∷ b'/' ∷ c ∷ v) ≡ codes "//"
unfolding root_of
root_of-slashes c v n = ground arith

-- The joined parts begin with a character that is no slash.
pub join-head :
    (s : Text) (rest : List Text)
    → IsPart s
    → (c : ℕ) × (v : Text) × (join b'/' s rest ≡ c ∷ v) × (c ≢ b'/')
join-head [] rest h = absurd (h.ne_nil refl)
join-head (c ∷ s) [] h = (c, s, refl, λ e. ground (arith, h.free))
join-head (c ∷ s) (t ∷ rest) h =
    (c, s ++ b'/' ∷ join b'/' t rest, refl, λ e. ground (arith, h.free))

module _ (s : Text) (rest : List Text) (h : All IsPart (s ∷ rest)) where
  abbrev joined : Text
  joined = join b'/' s rest

  parts-joined : split b'/' joined ≡ (s, rest)
  parts-joined = split-join b'/' s rest h.0.free (All-Free rest h.1)

  parse-relative : parse joined ≡ record { root = []; parts = s ∷ rest }
  unfolding parse
  parse-relative =
      let (c, v, e, n) = join-head s rest h.0 in
      rw (parts-joined, keep-parts (s ∷ rest) h) (rw (e, root_of-other c v n) refl)

  parse-slash : parse (b'/' ∷ joined) ≡ record { root = codes "/"; parts = s ∷ rest }
  unfolding parse nat_eq list_eq
  parse-slash =
      let (c, v, e, n) = join-head s rest h.0 in
      rw (parts-joined, keep-parts (s ∷ rest) h) (rw (e, root_of-slash c v n) refl)

  parse-slashes : parse (b'/' ∷ b'/' ∷ joined) ≡ record { root = codes "//"; parts = s ∷ rest }
  unfolding parse nat_eq list_eq
  parse-slashes =
      let (c, v, e, n) = join-head s rest h.0 in
      rw (parts-joined, keep-parts (s ∷ rest) h) (rw (e, root_of-slashes c v n) refl)

  joined-ne-nil : joined ≢ []
  joined-ne-nil = let (c, v, e, n) = join-head s rest h.0 in λ k. cc e

posix_relative :
    (s : Text) (rest : List Text)
    → join b'/' s rest ≢ []
    → as_posix (record { root = []; parts = s ∷ rest }) ≡ join b'/' s rest
unfolding as_posix join_parts
posix_relative s rest n = ground arith

posix_slash :
    (s : Text) (rest : List Text)
    → as_posix (record { root = codes "/"; parts = s ∷ rest }) ≡ b'/' ∷ join b'/' s rest
unfolding as_posix join_parts
posix_slash s rest = ground arith

posix_slashes :
    (s : Text) (rest : List Text)
    → as_posix (record { root = codes "//"; parts = s ∷ rest }) ≡ b'/' ∷ b'/' ∷ join b'/' s rest
unfolding as_posix join_parts
posix_slashes s rest = ground arith

round :
    (root : Text) (parts : List Text)
    → (root ≡ []) ⊎ (root ≡ codes "/") ⊎ (root ≡ codes "//")
    → All IsPart parts
    → parse (as_posix (record { root = root; parts = parts }))
      ≡ record { root = root; parts = parts }
round root [] (inl e) h = rw e (unfold parse as_posix nat_eq list_eq in refl)
round root [] (inr (inl e)) h = rw e (unfold parse as_posix nat_eq list_eq in refl)
round root [] (inr (inr e)) h = rw e (unfold parse as_posix nat_eq list_eq in refl)
round root (s ∷ rest) (inl e) h =
    rw (e, posix_relative s rest (joined-ne-nil s rest h)) (parse-relative s rest h)
round root (s ∷ rest) (inr (inl e)) h = rw (e, posix_slash s rest) (parse-slash s rest h)
round root (s ∷ rest) (inr (inr e)) h = rw (e, posix_slashes s rest) (parse-slashes s rest h)

-- A path is read back from its text, absolute or not, if its root is one of the three there are
-- and its parts are non-empty, without a slash, and not a single dot.
pub parse-as_posix : (p : PurePath) → IsPath p → parse (as_posix p) ≡ p
parse-as_posix p h = round p.root p.parts h.root_of_path h.all_parts
