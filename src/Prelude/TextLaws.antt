-- ===== src/Prelude/TextLaws.antt =====
-- Laws of the methods of `str`: prefixes, `find` and `split`.
use Prim.Native.Nat.{ℕ, zero, suc, ◌+◌, ◌≤◌}
use mathlib.Core.Path.{◌≡◌, refl, sym, ◌∙◌}
use mathlib.Core.Bool.{Bool, true, false}
use mathlib.Core.List.{List, [], ◌∷◌, ◌++◌, append-nil}
use mathlib.Core.Logic.{inl, inr}
use mathlib.Core.Option.{some}
use native.Mathlib.Omega.{arith}
use cincan_command.Prelude.Equality.{
  contains, nat_eq, ◌==◌, if◌then◌else◌, Bool-cases, Option-cases,
}
use cincan_command.Prelude.Lists.{length, drop, drop-drop, All, last}
use cincan_command.Prelude.Texts.{Text, ends_with, starts_with, position, find, split, join}

pub starts_with-append : (s v : Text) → starts_with (s ++ v) s ≡ true
unfolding starts_with
starts_with-append [] v = refl
starts_with-append (c ∷ s) v = ground (arith, starts_with-append s v)

pub starts_with_eq : (v s : Text) → starts_with v s ≡ true → v ≡ s ++ drop (length s) v
unfolding starts_with
starts_with_eq v [] h = refl
starts_with_eq [] (d ∷ s) h = cc
starts_with_eq (c ∷ v) (d ∷ s) h = ground (arith, starts_with_eq v s)

pub starts_with-length : (v s : Text) → starts_with v s ≡ true → length s ≤ length v
unfolding starts_with
starts_with-length v [] h = omega arith
starts_with-length [] (d ∷ s) h = cc
starts_with-length (c ∷ v) (d ∷ s) h = ground (arith, starts_with-length v s)

position_found : (v s : Text) (k : ℕ) → position v s ≡ some k → starts_with (drop k v) s ≡ true
unfolding position
position_found [] s zero h = ground arith
position_found [] s (suc k) h = ground arith
position_found (c ∷ v) s zero h = ground arith
position_found (c ∷ v) s (suc k) h = ground (arith, position_found v s k)

position_least :
    (j : ℕ) (v s : Text)
    → starts_with (drop j v) s ≡ true
    → (k : ℕ) × (position v s ≡ some k) × (k ≤ j)
unfolding position
position_least zero [] s h = (0, ground arith, omega arith)
position_least (suc j) [] s h = (0, ground arith, omega arith)
position_least zero (c ∷ v) s h = (0, ground arith, omega arith)
position_least (suc j) (c ∷ v) s h = elim (Bool-cases (starts_with (c ∷ v) s)) [
  | inl e ↦ (0, rw e refl, omega arith)
  | inr e ↦ let (k, p, le) = position_least j v s h in (suc k, rw (e, p) refl, omega arith)
]

-- What `find` returns is at or behind the offset, and `s` stands there.
pub find_found :
    (v s : Text) (off at : ℕ)
    → find v s off ≡ some at
    → (off ≤ at) × (starts_with (drop at v) s ≡ true)
unfolding find
find_found v s off at h = elim (Option-cases (position (drop off v) s)) [
  | inl e ↦ absurd (ground arith)
  | inr (k, e) ↦
      let eq : at ≡ off + k = ground arith in
      (omega arith, rw (eq, ← drop-drop off k v) (position_found (drop off v) s k e))
]

-- `find` returns the first such place.
pub find_least :
    (v s : Text) (off j : ℕ)
    → off ≤ length v
    → starts_with (drop (off + j) v) s ≡ true
    → (at : ℕ) × (find v s off ≡ some at) × (at ≤ off + j)
unfolding find
find_least v s off j le h =
    let (k, p, kj) = position_least j (drop off v) s (rw drop-drop h) in
    (off + k, rw p (ground arith), omega arith)

abbrev pub prefixed : ℕ → List Text → Text
prefixed d [] = []
prefixed d (s ∷ rest) = d ∷ s ++ prefixed d rest

pub join-prefixed : (d : ℕ) (s : Text) (rest : List Text) → join d s rest ≡ s ++ prefixed d rest
join-prefixed d s [] = sym (append-nil s)
join-prefixed d s (t ∷ rest) = rw (join-prefixed d t rest)

join-cons : (d c : ℕ) (s : Text) (rest : List Text) → join d (c ∷ s) rest ≡ c ∷ join d s rest
join-cons d c s [] = refl
join-cons d c s (t ∷ rest) = refl

-- The pieces of a split, joined again, are the text, and no piece has the separator.
pub join-split : (d : ℕ) (v : Text) → let (s, rest) = split d v in join d s rest ≡ v
unfolding split
join-split d [] = refl
join-split d (c ∷ v) = ground (arith, join-split d v, join-cons d c (split d v).0 (split d v).1)

abbrev pub Free : ℕ → Text → Type 0
Free d s = contains s d ≡ false

pub split-Free : (d : ℕ) (v : Text) → let (s, rest) = split d v in Free d s × All (Free d) rest
unfolding split
split-Free d [] = (refl, tt)
split-Free d (c ∷ v) = ground (arith, split-Free d v)

pub split-ne-nil : (d : ℕ) (v : Text) → contains v d ≡ true → (split d v).1 ≡ [] → ⊥
unfolding split
split-ne-nil d [] h e = cc
split-ne-nil d (c ∷ v) h e = ground (arith, split-ne-nil d v)

-- The facts about a split together, for a split that has been computed.
pub split_lem :
    (d : ℕ) (v s : Text) (rest : List Text)
    → split d v ≡ (s, rest)
    → (v ≡ s ++ prefixed d rest) × Free d s × All (Free d) rest
split_lem d v s rest e =
    let joined : join d s rest ≡ v = rw e at (join-split d v) in
    let free : Free d s × All (Free d) rest = rw e at (split-Free d v) in
    (sym joined ∙ join-prefixed d s rest, free.0, free.1)

pub split_self : (d : ℕ) (s : Text) → Free d s → split d s ≡ (s, [])
unfolding split
split_self d [] f = refl
split_self d (c ∷ s) f = rw (split_self d s (ground arith)) (ground arith)

pub find_prefix : (c : ℕ) (s v : Text) → find ((c ∷ s) ++ v) (c ∷ s) 0 ≡ some 0
unfolding find position
find_prefix c s v = rw (starts_with-append (c ∷ s) v) (ground arith)

pub split-cons_self : (d : ℕ) (s : Text) → Free d s → split d (d ∷ s) ≡ ([], s ∷ [])
unfolding split
split-cons_self d s f = rw (split_self d s f) (ground arith)

pub ends_with-Free : (d : ℕ) (s : Text) → Free d s → ends_with s d ≡ false
unfolding ends_with
ends_with-Free d [] f = refl
ends_with-Free d (c ∷ []) f = ground arith
ends_with-Free d (c ∷ e ∷ s) f = ends_with-Free d (e ∷ s) (ground arith)

push_last :
    (same : Bool) (c : ℕ) (s : Text) (rest : List Text)
    → (last s rest ≡ []) × (rest ≡ [] → ⊥)
    → let (t, more) =
        (let p : Text × List Text = if same then ([], s ∷ rest) else (c ∷ s, rest) in p) in
      (last t more ≡ []) × (more ≡ [] → ⊥)
push_last same c s [] (l, n) = absurd (n refl)
push_last same c s (t ∷ rest) (l, n) = ground arith

-- A text that ends in the separator has an empty last piece.
pub split-concat :
    (d : ℕ) (v : Text)
    → let (s, rest) = split d (v ++ d ∷ []) in (last s rest ≡ []) × (rest ≡ [] → ⊥)
unfolding split
split-concat d [] = ground arith
split-concat d (c ∷ v) = push_last (c == d) c _ _ (split-concat d v)

-- Text behind the first character does not change its test.
pub starts_with-one :
    (c : ℕ) (s v : Text) (d : ℕ)
    → starts_with (c ∷ s) (d ∷ []) ≡ false
    → starts_with (c ∷ s ++ v) (d ∷ []) ≡ false
unfolding starts_with
starts_with-one c s v d h = h
