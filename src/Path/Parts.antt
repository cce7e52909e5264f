-- ===== src/Path/Parts.antt =====
-- Facts on the parts of a path that is read from a text, and on the text of a relative path.
use cincan_command.Prelude.{
  ℕ, suc, ◌≤◌, ==_self, Text, codes, split, split-Free, join, keep, starts_with, Free, All,
  Bool-cases, true, false, length, length-append, List, [], ◌∷◌, nat_eq, list_eq, ◌==◌, drop, ◌≡◌,
  ◌≢◌, inl, inr, refl, ap, arith,
}
use cincan_command.Path.{PurePath, parse, as_posix, is_part, join_parts, root_of, init, parent}
use cincan_command.Path.RoundTrip.{IsPart, join-head}

-- A path below the working directory
pub record IsRelative (p : PurePath) : Type 0 where
  pub no_root : p.root ≡ []
  pub all_parts : All IsPart p.parts

keep-IsPart : (xs : List Text) → All (Free b'/') xs → All IsPart (keep is_part xs)
unfolding is_part
keep-IsPart [] f = tt
keep-IsPart (x ∷ xs) f = elim (Bool-cases (is_part x)) [
  | inl e ↦ rw e (
    record { ne_nil = λ n. ground arith; ne_dot = λ n. ground arith; free = f.0 },
    keep-IsPart xs f.1,
  )
  | inr e ↦ rw e (keep-IsPart xs f.1)
]

root_of-nil : (v : Text) → starts_with v (codes "/") ≡ false → root_of v ≡ []
unfolding root_of starts_with
root_of-nil [] h = refl
root_of-nil (a ∷ []) h = ground arith
root_of-nil (a ∷ b ∷ []) h = ground arith
root_of-nil (a ∷ b ∷ c ∷ v) h = ground arith

pub parse-IsPart : (v : Text) → All IsPart (parse v).parts
unfolding parse
parse-IsPart v = keep-IsPart ((split b'/' v).0 ∷ (split b'/' v).1) (split-Free b'/' v)

pub parse-IsRelative : (v : Text) → starts_with v (codes "/") ≡ false → IsRelative (parse v)
unfolding parse
parse-IsRelative v h = record { no_root = root_of-nil v h; all_parts = parse-IsPart v }

pub init-All : (P : Text → Type 0) (xs : List Text) → All P xs → All P (init xs)
init-All P [] h = tt
init-All P (x ∷ []) h = tt
init-All P (x ∷ y ∷ xs) h = (h.0, init-All P (y ∷ xs) h.1)

pub parent-IsRelative : (p : PurePath) → IsRelative p → IsRelative (parent p)
parent-IsRelative p h = record {
  no_root = h.no_root;
  all_parts = init-All IsPart p.parts h.all_parts;
}

init-le : (x : Text) (xs : List Text) → length (init (x ∷ xs)) ≡ length xs
init-le x [] = refl
init-le x (y ∷ xs) = omega (arith, init-le y xs)

pub length-init : (xs : List Text) (n : ℕ) → length xs ≤ suc n → length (init xs) ≤ n
length-init [] n h = omega arith
length-init (x ∷ xs) n h = omega (arith, init-le x xs)

pub nil_of_length : (xs : List Text) → length xs ≤ 0 → xs ≡ []
nil_of_length [] h = refl
nil_of_length (x ∷ xs) h = absurd (omega arith)

pub empty_of_length : (xs : List Text) → length xs ≤ 0 → (xs == []) ≡ true
empty_of_length [] h = ==_self {A = List Text} []
empty_of_length (x ∷ xs) h = absurd (omega arith)

join-ne-dot : (s : Text) (rest : List Text) → IsPart s → join b'/' s rest ≢ codes "."
join-ne-dot s [] h e = h.ne_dot e
join-ne-dot [] (t ∷ rest) h e = h.ne_nil refl
join-ne-dot (c ∷ s) (t ∷ rest) h e =
    omega (arith, length-append s (b'/' ∷ join b'/' t rest), ap (λ (v : Text). length v) e)

join-ne-nil : (s : Text) (rest : List Text) → IsPart s → join b'/' s rest ≢ []
join-ne-nil [] rest h e = h.ne_nil refl
join-ne-nil (c ∷ s) [] h e = cc
join-ne-nil (c ∷ s) (t ∷ rest) h e = cc

as_posix_parts :
    (root : Text) (parts : List Text)
    → root ≡ []
    → All IsPart parts
    → (as_posix (record { root = root; parts = parts }) == codes ".") ≡ (parts == [])
unfolding as_posix join_parts
as_posix_parts root [] e h = rw e (unfold nat_eq list_eq in refl)
as_posix_parts root (s ∷ rest) e h =
    rw e (ground (arith, join-ne-dot s rest h.0, join-ne-nil s rest h.0))

-- A relative path is "." exactly if it has no parts.
pub as_posix-eq-dot : (p : PurePath) → IsRelative p → (as_posix p == codes ".") ≡ (p.parts == [])
as_posix-eq-dot p h = as_posix_parts p.root p.parts h.no_root h.all_parts

-- The joined parts do not begin with a slash.
join_parts-no_slash :
    (xs : List Text) → All IsPart xs → starts_with (join_parts xs) (codes "/") ≡ false
unfolding join_parts starts_with
join_parts-no_slash [] h = refl
join_parts-no_slash (s ∷ rest) h = let (c, v, e, n) = join-head s rest h.0 in rw e (ground arith)

relative-no_slash :
    (root : Text) (parts : List Text)
    → root ≡ []
    → All IsPart parts
    → starts_with (as_posix (record { root = root; parts = parts })) (codes "/") ≡ false
unfolding as_posix
relative-no_slash root parts e h = elim (Bool-cases (join_parts parts == [])) [
  | inl k ↦ rw e (rw k (unfold starts_with nat_eq list_eq in refl))
  | inr k ↦ rw e (rw k (join_parts-no_slash parts h))
]

pub as_posix-no_slash : (p : PurePath) → IsRelative p → starts_with (as_posix p) (codes "/") ≡ false
as_posix-no_slash p h = relative-no_slash p.root p.parts h.no_root h.all_parts

absolute-drop :
    (root : Text) (parts : List Text)
    → root ≡ codes "/"
    → as_posix (record { root = root; parts = parts }) ≡ b'/' ∷ join_parts parts
unfolding as_posix
absolute-drop root parts e = rw e (ground arith)

-- Behind the root's slash stands no other one.
pub as_posix-drop :
    (p : PurePath)
    → p.root ≡ codes "/"
    → All IsPart p.parts
    → starts_with (drop 1 (as_posix p)) (codes "/") ≡ false
as_posix-drop p e h = rw (absolute-drop p.root p.parts e) (join_parts-no_slash p.parts h)
