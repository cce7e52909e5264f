-- ===== src/Path.antt =====
-- `pathlib.PurePosixPath`, as far as cincan/file_tool.py, tar_tool.py and command_inspector.py use it.

pub mod RoundTrip
pub mod Parts
use cincan_command.Prelude.{
  Text, codes, split, join, keep, Bool, true, false, not, ◌&&◌, ◌||◌, Option, none, some, List, [],
  ◌∷◌, ◌++◌, ◌==◌, ◌≡◌, ap, Eq, nat_eq, list_eq, if◌then◌else◌,
}
use mathlib.Core.Path.{ap₂}

-- `root` is empty, "/" or "//".
pub record PurePath : Type 0 where
  pub root : Text
  pub parts : List Text

path_dec : (p q : PurePath) → Dec (p.root ≡ q.root) → Dec (p.parts ≡ q.parts) → Dec (p ≡ q)
path_dec p q (yes r) (yes s) = yes (ap₂ (λ a b. record { root = a; parts = b }) r s)
path_dec p q (no n) d = no (λ e. n (ap (λ (x : PurePath). x.root) e))
path_dec p q (yes r) (no n) = no (λ e. n (ap (λ (x : PurePath). x.parts) e))

-- `p == q`
instance unfoldable pub path_eq : Eq PurePath
unfolding path_dec
path_eq = record {
  dec = λ p q. path_dec p q (list_eq.dec p.root q.root) (list_eq.dec p.parts q.parts);
}

-- One slash or more than two give the root "/", and exactly two give "//".
root_of : Text → Text
root_of (a ∷ b ∷ c ∷ v) =
    if a == b'/' then (if b == b'/' && not (c == b'/') then codes "//" else codes "/") else []
root_of (a ∷ b ∷ []) = if a == b'/' then (if b == b'/' then codes "//" else codes "/") else []
root_of (a ∷ []) = if a == b'/' then codes "/" else []
root_of [] = []

is_part : Text → Bool
is_part s = not (s == []) && not (s == codes ".")

-- `pathlib.Path(v)`
unfoldable pub parse : Text → PurePath
unfolding root_of is_part split
parse v =
    let (s, rest) = split b'/' v in record { root = root_of v; parts = keep is_part (s ∷ rest) }

join_parts : List Text → Text
join_parts [] = []
join_parts (s ∷ rest) = join b'/' s rest

-- `p.as_posix()`
unfoldable pub as_posix : PurePath → Text
unfolding join_parts
as_posix p = let v = p.root ++ join_parts p.parts in if v == [] then codes "." else v

-- `p.is_absolute()`
abbrev pub is_absolute : PurePath → Bool
is_absolute p = not (p.root == [])

abbrev pub init : List Text → List Text
init [] = []
init (x ∷ []) = []
init (x ∷ y ∷ xs) = x ∷ init (y ∷ xs)

-- `p.parent`: a root and the empty path are their own parents.
abbrev pub parent : PurePath → PurePath
parent p = record p { parts = init p.parts }

-- `p / q`
unfoldable pub join_path : PurePath → PurePath → PurePath
join_path p q = if is_absolute q then q else record p { parts = p.parts ++ q.parts }

strip : List Text → List Text → Option (List Text)
strip [] xs = some xs
strip (y ∷ ys) [] = none
strip (y ∷ ys) (x ∷ xs) = let rest = strip ys xs in if x == y then rest else none

-- `p.relative_to(q)`, with `none` for the `ValueError`
unfoldable pub relative_to : PurePath → PurePath → Option PurePath
unfolding strip
relative_to p q = elim (strip q.parts p.parts) [
  | none ↦ none
  | some rest ↦ if p.root == q.root then some (record { root = []; parts = rest }) else none
]
