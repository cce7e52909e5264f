-- ===== src/Prelude/Lists.antt =====
-- Lists measured and cut by native numbers, under the library's names, and predicates on lists.
use Prim.Native.Nat.{ℕ, zero, suc, ◌+◌, ◌-◌, ◌≤◌}
use mathlib.Core.Path.{◌≡◌, refl, sym, ap, ◌∙◌}
use mathlib.Core.Bool.{Bool, true, false, not, ◌&&◌, ◌||◌}
use mathlib.Core.List.{List, [], ◌∷◌, ◌++◌}
use mathlib.Core.Logic.{inl, inr}
use native.Mathlib.Omega.{arith}
use cincan_command.Prelude.Equality.{if◌then◌else◌, contains, contains-append, Bool-cases, Eq, ◌==◌}

module _ {ℓ} {A : Type ℓ} where
  abbrev pub length : List A → ℕ
  length [] = 0
  length (x ∷ xs) = suc (length xs)

  abbrev pub take : ℕ → List A → List A
  take zero xs = []
  take (suc n) [] = []
  take (suc n) (x ∷ xs) = x ∷ take n xs

  abbrev pub drop : ℕ → List A → List A
  drop zero xs = xs
  drop (suc n) [] = []
  drop (suc n) (x ∷ xs) = drop n xs

  pub length-append : (xs ys : List A) → length (xs ++ ys) ≡ length xs + length ys
  length-append [] ys = omega arith
  length-append (x ∷ xs) ys = omega (arith, length-append xs ys)

  pub length-drop : (n : ℕ) (xs : List A) → length (drop n xs) ≡ length xs - n
  length-drop zero xs = omega arith
  length-drop (suc n) [] = omega arith
  length-drop (suc n) (x ∷ xs) = omega (arith, length-drop n xs)

  pub drop-append : (xs ys : List A) → drop (length xs) (xs ++ ys) ≡ ys
  drop-append [] ys = refl
  drop-append (x ∷ xs) ys = drop-append xs ys

  pub take-append : (xs ys : List A) → take (length xs) (xs ++ ys) ≡ xs
  take-append [] ys = refl
  take-append (x ∷ xs) ys = rw (take-append xs ys)

  pub take-append-drop : (n : ℕ) (xs : List A) → take n xs ++ drop n xs ≡ xs
  take-append-drop zero xs = refl
  take-append-drop (suc n) [] = refl
  take-append-drop (suc n) (x ∷ xs) = rw (take-append-drop n xs)

  -- `list(filter(p, xs))`
  abbrev pub keep : (A → Bool) → List A → List A
  keep p [] = []
  keep p (x ∷ xs) = let rest = keep p xs in if p x then x ∷ rest else rest

  -- `any(map(p, xs))`
  abbrev pub any : (A → Bool) → List A → Bool
  any p [] = false
  any p (x ∷ xs) = p x || any p xs

  abbrev pub all : (A → Bool) → List A → Bool
  all p [] = true
  all p (x ∷ xs) = p x && all p xs

  -- `xs[-1]` of a list that begins with `x`.
  abbrev pub last : A → List A → A
  last x [] = x
  last x (y ∷ ys) = last y ys

  -- A predicate of every element, as a tuple.
  abbrev pub All {κ} : (A → Type κ) → List A → Type κ
  All P [] = Unit
  All P (x ∷ xs) = P x × All P xs

module _ {ℓ} {A : Type ℓ} where
  drop-nil : (k : ℕ) → drop {A = A} k [] ≡ []
  drop-nil zero = refl
  drop-nil (suc k) = refl

  pub drop-drop : (m n : ℕ) (xs : List A) → drop n (drop m xs) ≡ drop (m + n) xs
  drop-drop zero n xs = ap (λ (k : ℕ). drop k xs) (omega arith)
  drop-drop (suc m) n [] = drop-nil n ∙ sym (drop-nil (suc m + n))
  drop-drop (suc m) n (x ∷ xs) =
      let e : suc (m + n) ≡ suc m + n = omega arith in
      drop-drop m n xs ∙ ap (λ (k : ℕ). drop k (x ∷ xs)) e

  pub drop-length : (xs : List A) → drop (length xs) xs ≡ []
  drop-length [] = refl
  drop-length (x ∷ xs) = drop-length xs

  pub All-append {κ} : (P : A → Type κ) (xs ys : List A) → All P xs → All P ys → All P (xs ++ ys)
  All-append P [] ys h k = k
  All-append P (x ∷ xs) ys h k = (h.0, All-append P xs ys h.1 k)

  pub All-map {κ κ'} :
      (P : A → Type κ) (Q : A → Type κ')
      → ((a : A) → P a → Q a)
      → (xs : List A) → All P xs
      → All Q xs
  All-map P Q i [] h = tt
  All-map P Q i (x ∷ xs) h = (i x h.0, All-map P Q i xs h.1)

module _ {ℓ} {A : Type ℓ} ⦃e : Eq A⦄ where
  pub contains-keep :
      (p : A → Bool) (a : A) (xs : List A) → contains (keep p xs) a ≡ (contains xs a && p a)
  contains-keep p a [] = refl
  contains-keep p a (x ∷ xs) = ground (arith, contains-keep p a xs)

  -- No item stands twice.
  abbrev pub Distinct : List A → Type 0
  Distinct [] = Unit
  Distinct (x ∷ xs) = (contains xs x ≡ false) × Distinct xs

  pub Distinct-append :
      (a : A) (xs : List A) → contains xs a ≡ false → Distinct xs → Distinct (xs ++ a ∷ [])
  Distinct-append a [] n d = (refl, tt)
  Distinct-append a (x ∷ xs) n d =
      (ground (arith, d.0, contains-append xs (a ∷ []) x), Distinct-append a xs (ground arith) d.1)

  pub Distinct-keep : (p : A → Bool) (xs : List A) → Distinct xs → Distinct (keep p xs)
  Distinct-keep p [] d = tt
  Distinct-keep p (x ∷ xs) d = elim (Bool-cases (p x)) [
    | inl k ↦ rw k (ground (arith, d.0, contains-keep p x xs), Distinct-keep p xs d.1)
    | inr k ↦ rw k (Distinct-keep p xs d.1)
  ]

  length-keep : (p : A → Bool) (xs : List A) → length (keep p xs) ≤ length xs
  length-keep p [] = omega arith
  length-keep p (x ∷ xs) = ground (arith, length-keep p xs)

  -- Without an item that it contains, a list is shorter.
  pub length-keep_ne :
      (a : A) (xs : List A)
      → contains xs a ≡ true
      → suc (length (keep (λ b. not (b == a)) xs)) ≤ length xs
  length-keep_ne a [] h = cc
  length-keep_ne a (x ∷ xs) h =
      ground (arith, length-keep_ne a xs, length-keep (λ (b : A). not (b == a)) xs)

  -- A list in which no item stands twice is no longer than a list of all its items.
  pub length-Distinct :
      (xs ys : List A)
      → Distinct xs
      → ((a : A) → contains xs a ≡ true → contains ys a ≡ true)
      → length xs ≤ length ys
  length-Distinct [] ys d h = omega arith
  length-Distinct (x ∷ xs) ys d h =
      let others : A → Bool = λ b. not (b == x) in
      let sub : (a : A) → contains xs a ≡ true → contains (keep others ys) a ≡ true =
        λ a k. ground (arith, d.0, h a, contains-keep others a ys) in
      let shorter = length-keep_ne x ys (h x (ground arith)) in
      omega (arith, length-Distinct xs (keep others ys) d.1 sub, shorter)
