-- ===== src/Prelude/Equality.antt =====
-- Python's `==` and `in`, for every type whose equality can be decided, tests on numbers, and the
-- conditional.
use Prim.Native.Nat.{ℕ, compare, Ordering}
use mathlib.Core.Path.{◌≡◌, refl, sym, ap₂}
use mathlib.Core.Logic.{ite, ◌⊎◌, inl, inr, ◌↔◌}
use mathlib.Core.Bool.{Bool, true, false, cond, ◌||◌, Bool-discrete}
use mathlib.Core.Option.{Option, none, some}
use mathlib.Core.List.{List, [], ◌∷◌, ◌++◌, nil≢cons, head-eq_of_cons-eq, tail-eq_of_cons-eq}
use native.Mathlib.Decide.{ℕ_discrete}
use native.Mathlib.Omega.{arith}

infix 1 if◌then◌else◌
abbrev pub if◌then◌else◌ {ℓ} : {A : Type ℓ} → Bool → A → A → A
if b then x else y = cond b x y

-- These compute to `compare`, which `ground` reads with no lemma listed.
abbrev pub ltb : ℕ → ℕ → Bool
ltb a b = elim (compare a b) [ Ordering.lt ↦ true | _ ↦ false ]

abbrev pub leb : ℕ → ℕ → Bool
leb a b = elim (compare a b) [ Ordering.gt ↦ false | _ ↦ true ]

pub Bool-cases : (b : Bool) → (b ≡ true) ⊎ (b ≡ false)
Bool-cases true = inl refl
Bool-cases false = inr refl

pub Option-cases {ℓ} : {A : Type ℓ} (o : Option A) → (o ≡ none) ⊎ ((a : A) × (o ≡ some a))
Option-cases none = inl refl
Option-cases (some a) = inr (a, refl)

pub record Eq {ℓ} (A : Type ℓ) : Type ℓ where
  pub dec : Discrete A

module _ {ℓ} {A : Type ℓ} ⦃e : Eq A⦄ where
  infix 50 ◌==◌
  abbrev pub ◌==◌ : A → A → Bool
  a == b = ite (e.dec a b) true false

  abbrev pub contains : List A → A → Bool
  contains [] a = false
  contains (x ∷ xs) a = a == x || contains xs a

  heads_dec : {x y : A} {xs ys : List A} → Dec (x ≡ y) → Dec (xs ≡ ys) → Dec ((x ∷ xs) ≡ (y ∷ ys))
  heads_dec (yes p) (yes q) = yes (ap₂ ◌∷◌ p q)
  heads_dec (yes p) (no n) = no (λ e. n (tail-eq_of_cons-eq e))
  heads_dec (no n) d = no (λ e. n (head-eq_of_cons-eq e))

  list_dec : Discrete (List A)
  list_dec [] [] = yes refl
  list_dec [] (y ∷ ys) = no nil≢cons
  list_dec (x ∷ xs) [] = no (λ p. nil≢cons (sym p))
  list_dec (x ∷ xs) (y ∷ ys) = heads_dec (e.dec x y) (list_dec xs ys)

  instance unfoldable pub list_eq : Eq (List A)
  unfolding list_dec heads_dec
  list_eq = record { dec = list_dec }

-- Shut in proofs, where a split on `a == b` yields the equation or its negation.
instance unfoldable pub nat_eq : Eq ℕ
unfolding ℕ_discrete
nat_eq = record { dec = ℕ_discrete }

instance unfoldable pub bool_eq : Eq Bool
bool_eq = record { dec = Bool-discrete }

module _ {ℓ} {A : Type ℓ} ⦃e : Eq A⦄ where
  pub ==_self : (a : A) → (a == a) ≡ true
  ==_self a = ground arith

  pub ==_iff : (a b : A) → ((a == b) ≡ true) ↔ (a ≡ b)
  ==_iff a b = ground arith

  pub contains-append :
      (xs ys : List A) (a : A) → contains (xs ++ ys) a ≡ (contains xs a || contains ys a)
  contains-append [] ys a = refl
  contains-append (x ∷ xs) ys a = ground (arith, contains-append xs ys a)
