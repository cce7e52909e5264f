-- ===== src/Matcher/Complete.antt =====
-- Where `__match` of cincan/file_tool.py accepts every instance of the pattern, and where not.
use cincan_command.Prelude.{
  ℕ, suc, split-cons_self, find_prefix, drop-append, append-nil, append_assoc, ◌+◌, ◌-◌, ◌≤◌, Text,
  Free, All, contains, starts_with, length, drop, drop-drop, length-drop, length-append,
  starts_with-length, find_least, prefixed, split, split_lem, split-ne-nil, find, find_found, last,
  Bool, true, false, Bool-cases, some, List, [], ◌∷◌, ◌++◌, ◌≡◌, ◌≢◌, ◌⊎◌, inl, inr, refl, ap,
  arith, nat_eq, list_eq,
}
use cincan_command.Matcher.{file_matcher, scan, match_pieces, matches}
use cincan_command.Matcher.Glob.{
  star, Glob, char, leave, take, Glob-drop, Glob-literal_inv, Glob-two_stars, Glob-exact, Glob_self,
}

-- A star and a literal: the literal stands somewhere, and the rest of the pattern behind it.
star-literal_inv :
    {d : ℕ} (s p : Text) {q v : Text}
    → Free star s
    → d ≡ star
    → q ≡ s ++ p
    → Glob (d ∷ q) v
    → (j : ℕ) × (starts_with (drop j v) s ≡ true) × Glob p (drop (j + length s) v)
star-literal_inv s p f e eq (char n g) = absurd (n e)
star-literal_inv s p {v} f e eq (leave _ g) =
    let (h, g') = Glob-literal_inv s p v f (rw eq at g) in
    let z : length s ≡ 0 + length s = omega arith in (0, h, rw (← z) g')
star-literal_inv s p f e eq (take {v = w} _ g) =
    let (j, h, g') = star-literal_inv s p f e eq g in
    let z : suc (j + length s) ≡ suc j + length s = omega arith in (suc j, h, rw (← z) g')

module _ (value : Text) where
  -- If the rest of the pattern begins with a star, the first place of the literal serves.
  find-Glob :
      (c : ℕ) (s p : Text) (off : ℕ)
      → Free star (c ∷ s)
      → off ≤ length value
      → Glob (star ∷ (c ∷ s) ++ star ∷ p) (drop off value)
      → (at : ℕ) × (find value (c ∷ s) off ≡ some at)
        × (at + suc (length s) ≤ length value)
        × Glob (star ∷ p) (drop (at + suc (length s)) value)
  find-Glob c s p off f le g =
      let (j, h, g') = star-literal_inv (c ∷ s) (star ∷ p) f refl refl g in
      let (at, e, first) = find_least value (c ∷ s) off j le (rw (drop-drop off j value) at h) in
      let fits : suc (length s) ≤ length (drop at value) =
        starts_with-length (drop at value) (c ∷ s) (find_found value (c ∷ s) off at e).1 in
      let n : ℕ = (off + j) - at in
      let same : (at + suc (length s)) + n ≡ off + (j + suc (length s)) = omega arith in
      let behind : Glob (star ∷ p) (drop n (drop (at + suc (length s)) value)) =
        rw
          (
            drop-drop (at + suc (length s)) n value,
            same,
            ← drop-drop off (j + suc (length s)) value,
          )
          g' in
      (at, e, omega (arith, length-drop at value), Glob-drop n p _ behind)

  scan-total :
      (s : Text) (rest : List Text) (off : ℕ)
      → Free star s
      → All (Free star) rest
      → last s rest ≡ []
      → off ≤ length value
      → Glob (prefixed star (s ∷ rest)) (drop off value)
      → (end : ℕ) × (scan value (s ∷ rest) off ≡ some end)
  unfolding scan
  scan-total [] [] off f fs l le g = (off, refl)
  scan-total [] (t ∷ rest) off f fs l le g = scan-total t rest off fs.0 fs.1 l le (Glob-two_stars g)
  scan-total (c ∷ s) [] off f fs l le g = absurd (cc)
  scan-total (c ∷ s) (t ∷ rest) off f fs l le g =
      let (at, e, fits, g') = find-Glob c s (t ++ prefixed star rest) off f le g in
      let (end, h) = scan-total t rest (at + suc (length s)) fs.0 fs.1 l fits g' in
      (end, rw (e, scan) h)

-- The pieces of a pattern that ends in a star: the last one is empty.
match_pieces-eq-true :
    (s t : Text) (rest : List Text) (value : Text)
    → Free star s
    → All (Free star) (t ∷ rest)
    → last t rest ≡ []
    → Glob (s ++ prefixed star (t ∷ rest)) value
    → match_pieces s (t ∷ rest) value ≡ true
unfolding match_pieces
match_pieces-eq-true s t rest value f fs l g =
    let (h, g') = Glob-literal_inv s _ value f g in
    let (end, e) =
      scan-total value t rest (length s) fs.0 fs.1 l (starts_with-length value s h) g' in
    rw (h, e, l) (ground arith)

split-eq-true :
    (m s : Text) (rest : List Text) (value : Text)
    → contains m star ≡ true
    → split star m ≡ (s, rest)
    → last s rest ≡ []
    → Glob m value
    → match_pieces s rest value ≡ true
split-eq-true m s [] value c e l g =
    absurd (split-ne-nil star m c (ap (λ (p : Text × List Text). p.1) e))
split-eq-true m s (t ∷ rest) value c e l g =
    let (eq, f, fs) = split_lem star m s (t ∷ rest) e in
    match_pieces-eq-true s t rest value f fs l (rw eq at g)

-- The last piece of the pattern.
unfoldable pub tail_of : Text → Text
unfolding split
tail_of m = let (s, rest) = split star m in last s rest

-- If the pattern ends in a star or has none, every instance of it is accepted.
pub matches-eq-true :
    (m value : Text) (include : Bool)
    → (tail_of m ≡ []) ⊎ (contains m star ≡ false)
    → Glob m value
    → matches (file_matcher m include) value ≡ true
unfolding matches file_matcher tail_of
matches-eq-true m value include e g = elim (Bool-cases (contains m star)) [
  | inl c ↦ let l : tail_of m ≡ [] = ground arith in rw c (split-eq-true m _ _ value c refl l g)
  | inr n ↦ rw (n, Glob-exact m value n g) (ground arith)
]

-- A star and a literal, not empty and without a star, refuse every text that has the literal at the
-- front and again at the end, though it is an instance of the pattern.
pub matches-eq-false :
    (s t : Text) (include : Bool)
    → Free star s
    → s ≢ []
    → (matches (file_matcher (star ∷ s) include) (s ++ (t ++ s)) ≡ false)
      × Glob (star ∷ s) (s ++ (t ++ s))
unfolding matches file_matcher match_pieces scan
matches-eq-false [] t include f n = absurd (n refl)
matches-eq-false (c ∷ s) t include f n = (
  ground (
    arith,
    ap (λ (p : Text × List Text). p.0) (split-cons_self star (c ∷ s) f),
    ap (λ (p : Text × List Text). p.1) (split-cons_self star (c ∷ s) f),
    find_prefix c s (t ++ c ∷ s),
    length-append s (t ++ c ∷ s),
    length-append t (c ∷ s),
  ),
  found,
)
  where
    ends : Glob ((c ∷ s) ++ []) (c ∷ s)
    ends = rw (append-nil (c ∷ s)) (Glob_self (c ∷ s) f)

    same : drop (length (c ∷ s ++ t)) ((c ∷ s ++ t) ++ c ∷ s) ≡ c ∷ s
    same = drop-append (c ∷ s ++ t) (c ∷ s)

    found : Glob (star ∷ c ∷ s) (c ∷ s ++ (t ++ c ∷ s))
    found =
        rw (← append_assoc (c ∷ s) t (c ∷ s))
          (Glob-drop (length (c ∷ s ++ t)) (c ∷ s) _ (rw same (leave refl (Glob_self (c ∷ s) f))))
