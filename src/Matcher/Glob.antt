-- ===== src/Matcher/Glob.antt =====
-- What a pattern means, with no search order in it, and the rules that the matcher's proofs use.
use cincan_command.Prelude.{
  ℕ, zero, suc, Text, Free, starts_with, length, drop, true, [], ◌∷◌, ◌++◌, ◌≡◌, ◌≢◌, refl, ap,
  arith, nat_eq,
}

abbrev pub star : ℕ
star = b'*'

-- `Glob p v`: the text `v` is an instance of the pattern `p`.
pub data Glob : Text → Text → Type 0 where
  done : Glob [] []
  char : {c : ℕ} {p v : Text} → c ≢ star → Glob p v → Glob (c ∷ p) (c ∷ v)
  leave : {d : ℕ} {p v : Text} → d ≡ star → Glob p v → Glob (d ∷ p) v
  take : {d c : ℕ} {p v : Text} → d ≡ star → Glob (d ∷ p) v → Glob (d ∷ p) (c ∷ v)

pub Glob-star : (v : Text) → Glob (star ∷ []) v
Glob-star [] = leave refl done
Glob-star (c ∷ v) = take refl (Glob-star v)

-- A pattern that begins with a star matches more text on the left.
pub Glob-drop : (n : ℕ) (p v : Text) → Glob (star ∷ p) (drop n v) → Glob (star ∷ p) v
Glob-drop zero p v g = g
Glob-drop (suc n) p [] g = g
Glob-drop (suc n) p (c ∷ v) g = take refl (Glob-drop n p v g)

pub Glob-literal : (s p v : Text) → Free star s → Glob p v → Glob (s ++ p) (s ++ v)
Glob-literal [] p v f g = g
Glob-literal (c ∷ s) p v f g = char (λ e. ground arith) (Glob-literal s p v (ground arith) g)

-- A literal in front of a pattern is a prefix of the text.
pub Glob-literal_inv :
    (s p v : Text)
    → Free star s
    → Glob (s ++ p) v
    → (starts_with v s ≡ true) × Glob p (drop (length s) v)
unfolding starts_with
Glob-literal_inv [] p v f g = (refl, g)
Glob-literal_inv (c ∷ s) p (_ ∷ v) f (char n g) =
    let (h, g') = Glob-literal_inv s p v (ground arith) g in (ground arith, g')
Glob-literal_inv (c ∷ s) p v f (leave e g) = absurd (ground arith)
Glob-literal_inv (c ∷ s) p (_ ∷ v) f (take e g) = absurd (ground arith)

-- A pattern without a star matches itself alone.
pub Glob-exact : (s v : Text) → Free star s → Glob s v → s ≡ v
Glob-exact [] [] f done = refl
Glob-exact [] (_ ∷ v) f g = elim g [ ]
Glob-exact (c ∷ s) (_ ∷ v) f (char n g) = ap (λ (t : Text). c ∷ t) (Glob-exact s v (ground arith) g)
Glob-exact (c ∷ s) v f (leave e g) = absurd (ground arith)
Glob-exact (c ∷ s) (_ ∷ v) f (take e g) = absurd (ground arith)

pub Glob_self : (s : Text) → Free star s → Glob s s
Glob_self [] f = done
Glob_self (c ∷ s) f = char (λ e. ground arith) (Glob_self s (ground arith))

-- Two stars in a row are one.
pub Glob-two_stars : {d : ℕ} {p v : Text} → Glob (d ∷ star ∷ p) v → Glob (star ∷ p) v
Glob-two_stars (char n g) = take refl g
Glob-two_stars (leave e g) = g
Glob-two_stars (take e g) = take refl (Glob-two_stars g)
