-- ===== src/Prelude/Sorting.antt =====
-- Python's order of strings, and `sorted`.
use mathlib.Core.Path.{◌≡◌, refl}
use mathlib.Core.Bool.{Bool, true, false, ◌||◌}
use mathlib.Core.List.{List, [], ◌∷◌}
use native.Mathlib.Omega.{arith}
use cincan_command.Prelude.Equality.{
  Bool-cases, if◌then◌else◌, ltb, ◌==◌, contains, nat_eq, list_eq, Eq,
}
use cincan_command.Prelude.Lists.{All}
use mathlib.Core.Logic.{inl, inr}
use cincan_command.Prelude.Texts.{Text}

-- `s <= t`
unfoldable pub text_le : Text → Text → Bool
text_le [] t = true
text_le (c ∷ s) [] = false
text_le (c ∷ s) (d ∷ t) =
    let rest = text_le s t in if ltb c d then true else if c == d then rest else false

module _ {ℓ} {A : Type ℓ} (le : A → A → Bool) where
  unfoldable pub insert : A → List A → List A
  insert a [] = a ∷ []
  insert a (x ∷ xs) = let rest = insert a xs in if le a x then a ∷ x ∷ xs else x ∷ rest

  -- `sorted(xs)`, for an order that is given by its test. Equal items keep their order.
  unfoldable pub sort : List A → List A
  unfolding insert
  sort [] = []
  sort (x ∷ xs) = insert x (sort xs)

module _ {ℓ} {A : Type ℓ} ⦃e : Eq A⦄ (le : A → A → Bool) where
  contains-insert :
      (a x : A) (xs : List A) → contains (insert le x xs) a ≡ (a == x || contains xs a)
  unfolding insert
  contains-insert a x [] = refl
  contains-insert a x (y ∷ xs) = ground (arith, contains-insert a x xs)

  pub contains-sort : (a : A) (xs : List A) → contains (sort le xs) a ≡ contains xs a
  unfolding sort
  contains-sort a [] = refl
  contains-sort a (x ∷ xs) = ground (arith, contains-insert a x (sort le xs), contains-sort a xs)

module _ {ℓ} {A : Type ℓ} (le : A → A → Bool) where
  All-insert {κ} : (P : A → Type κ) (x : A) (xs : List A) → P x → All P xs → All P (insert le x xs)
  unfolding insert
  All-insert P x [] p h = (p, tt)
  All-insert P x (y ∷ xs) p h = elim (Bool-cases (le x y)) [
    | inl e ↦ rw e (p, h)
    | inr e ↦ rw e (h.0, All-insert P x xs p h.1)
  ]

  pub All-sort {κ} : (P : A → Type κ) (xs : List A) → All P xs → All P (sort le xs)
  unfolding sort
  All-sort P [] h = tt
  All-sort P (x ∷ xs) h = All-insert P x (sort le xs) h.0 (All-sort P xs h.1)
