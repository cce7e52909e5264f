-- ===== src/Images/Progress/Width.antt =====
-- How wide the rows are that cincan/image_fetcher.py gives out while an image is pulled.
use cincan_command.Prelude.{
  ℕ, zero, suc, ◌+◌, ◌-◌, ◌≤◌, Text, codes, length, length-append, append-nil, take, leb,
  starts_with, starts_with-append, true, [], ◌∷◌, ◌++◌, nat_eq, list_eq, if◌then◌else◌, ◌≡◌, refl,
  arith,
}
use cincan_command.Images.Progress.{Status, fit, line_of, row}

length-take : (n : ℕ) (v : Text) → n ≤ length v → length (take n v) ≡ n
length-take zero v h = omega arith
length-take (suc n) [] h = absurd (omega arith)
length-take (suc n) (c ∷ v) h = omega (arith, length-take n v)

starts_with-take : (n : ℕ) (v : Text) → starts_with v (take n v) ≡ true
unfolding starts_with
starts_with-take zero [] = refl
starts_with-take zero (c ∷ v) = refl
starts_with-take (suc n) [] = refl
starts_with-take (suc n) (c ∷ v) = ground (arith, starts_with-take n v)

starts_with_self : (v : Text) → starts_with v v ≡ true
starts_with_self v = rw append-nil at (starts_with-append v [])

fit_lem :
    (repository line : Text) (t_width : ℕ)
    → (starts_with line (fit repository t_width line) ≡ true)
      × (length (fit repository t_width line) ≡ (
          if leb (length repository + 2 + length line) t_width
          then length line
          else t_width - (length repository + 2)))
unfolding fit
fit_lem repository line t_width =
    let full : ℕ = length (repository ++ codes ": " ++ line) in
    let e : full ≡ length repository + 2 + length line = omega (
      arith,
      length-append (repository ++ codes ": ") line,
      length-append repository (codes ": "),
    ) in
    let n : ℕ = length line - (full - t_width) in
    (
      ground (arith, starts_with-take n line, starts_with_self line),
      ground (arith, e, length-take n line),
    )

-- A row is the beginning of its line that fits on the terminal behind the name of the repository
-- and a colon: the whole line, or as many characters as there are left.
row_lem :
    (repository : Text) (t_width : ℕ) (s : Status)
    → (starts_with (line_of s) (row repository t_width s) ≡ true)
      × (length (row repository t_width s) ≡ (
          if leb (length repository + 2 + length (line_of s)) t_width
          then length (line_of s)
          else t_width - (length repository + 2)))
unfolding row
row_lem repository t_width s = fit_lem repository (line_of s) t_width
