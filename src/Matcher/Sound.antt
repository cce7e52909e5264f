-- ===== src/Matcher/Sound.antt =====
-- What `__match` of cincan/file_tool.py accepts is an instance of the pattern.
use cincan_command.Prelude.{
  ℕ, suc, ◌+◌, ◌-◌, Text, Free, All, contains, starts_with, starts_with_eq, length, drop, drop-drop,
  drop-length, prefixed, split, split_lem, split-ne-nil, find, find_found, last, Bool, true,
  Bool-cases, Option-cases, some, List, [], ◌∷◌, ◌++◌, ◌≡◌, ◌⊎◌, inl, inr, refl, ap, ◌∙◌, arith,
  nat_eq, list_eq,
}
use cincan_command.Matcher.{file_matcher, scan, match_pieces, matches}
use cincan_command.Matcher.Glob.{
  star, Glob, done, leave, Glob-star, Glob-drop, Glob-literal, Glob_self,
}

module _ (value : Text) where
  -- A piece found behind `off` accounts for the text between.
  found-Glob :
      (s p : Text) (off at : ℕ)
      → Free star s
      → find value s off ≡ some at
      → Glob p (drop (at + length s) value)
      → Glob (star ∷ s ++ p) (drop off value)
  found-Glob s p off at f h g =
      let (le, here) = find_found value s off at h in
      let w : Text = drop at value in
      let same : drop at value ≡ s ++ drop (at + length s) value =
        starts_with_eq w s here ∙ ap (λ (t : Text). s ++ t) (drop-drop at (length s) value) in
      let there : Glob (star ∷ s ++ p) (drop at value) =
        rw same (leave refl (Glob-literal s p _ f g)) in
      let e : off + (at - off) ≡ at = omega arith in
      Glob-drop (at - off) (s ++ p) (drop off value) (rw (drop-drop off (at - off) value, e) there)

  scan-Glob :
      (s : Text) (rest : List Text) (off end : ℕ)
      → Free star s
      → All (Free star) rest
      → scan value (s ∷ rest) off ≡ some end
      → (last s rest ≡ []) ⊎ (end ≡ length value)
      → Glob (prefixed star (s ∷ rest)) (drop off value)
  unfolding scan
  scan-Glob [] [] off end f fs h e = Glob-star _
  scan-Glob [] (t ∷ rest) off end f fs h e = leave refl (scan-Glob t rest off end fs.0 fs.1 h e)
  scan-Glob (c ∷ s) [] off end f fs h e = elim (Option-cases (find value (c ∷ s) off)) [
    | inl n ↦ absurd (ground arith)
    | inr (at, p) ↦
        let eq : at + suc (length s) ≡ length value = ground arith in
        found-Glob (c ∷ s) [] off at f p (rw (eq, drop-length value) done)
  ]
  scan-Glob (c ∷ s) (t ∷ rest) off end f fs h e = elim (Option-cases (find value (c ∷ s) off)) [
    | inl n ↦ absurd (ground arith)
    | inr (at, p) ↦
        found-Glob (c ∷ s) (prefixed star (t ∷ rest)) off at f p
          (scan-Glob t rest (at + suc (length s)) end fs.0 fs.1 (ground arith) e)
  ]

-- What an accepting run of `__match` has found.
match_pieces_inv :
    (s : Text) (rest : List Text) (value : Text)
    → match_pieces s rest value ≡ true
    → (starts_with value s ≡ true)
      × (end : ℕ) × (scan value rest (length s) ≡ some end)
      × ((last s rest ≡ []) ⊎ (end ≡ length value))
unfolding match_pieces
match_pieces_inv s rest value h = elim (Option-cases (scan value rest (length s))) [
  | inl n ↦ absurd (ground arith)
  | inr (end, e) ↦ (ground arith, end, e, ground arith)
]

match_pieces-Glob :
    (s t : Text) (rest : List Text) (value : Text)
    → Free star s
    → All (Free star) (t ∷ rest)
    → match_pieces s (t ∷ rest) value ≡ true
    → Glob (s ++ prefixed star (t ∷ rest)) value
match_pieces-Glob s t rest value f fs h =
    let (begins, end, e, stop) = match_pieces_inv s (t ∷ rest) value h in
    rw (starts_with_eq value s begins)
      (Glob-literal s _ _ f (scan-Glob value t rest (length s) end fs.0 fs.1 e stop))

split-Glob :
    (m s : Text) (rest : List Text) (value : Text)
    → contains m star ≡ true
    → split star m ≡ (s, rest)
    → match_pieces s rest value ≡ true
    → Glob m value
split-Glob m s [] value c e h =
    absurd (split-ne-nil star m c (ap (λ (p : Text × List Text). p.1) e))
split-Glob m s (t ∷ rest) value c e h =
    let (eq, f, fs) = split_lem star m s (t ∷ rest) e in
    rw eq (match_pieces-Glob s t rest value f fs h)

-- A text that a matcher accepts is an instance of its pattern.
pub matches-Glob :
    (m value : Text) (include : Bool) → matches (file_matcher m include) value ≡ true → Glob m value
unfolding matches file_matcher
matches-Glob m value include h = elim (Bool-cases (contains m star)) [
  | inl c ↦ split-Glob m _ _ value c refl (ground arith)
  | inr n ↦ let e : m ≡ value = ground arith in rw (← e) (Glob_self m n)
]
