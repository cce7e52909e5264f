-- ===== src/Prelude/Texts.antt =====
-- Python's `str` as the list of its code points, with the methods that the program calls.
use Prim.Native.Nat.{ℕ, zero, suc, ◌+◌, ◌/◌, ◌%◌}
use Prim.Native.Char.{code}
use Prim.Native.String.{String}
use mathlib.Core.Bool.{Bool, true, false, ◌&&◌}
use mathlib.Core.List.{List, [], ◌∷◌, ◌++◌}
use mathlib.Core.Option
use mathlib.Core.Option.{Option, none, some}
use cincan_command.Prelude.Equality.{if◌then◌else◌, ltb, ◌==◌, nat_eq}
use cincan_command.Prelude.Lists.{length, drop}

abbrev pub Text : Type 0
Text = List ℕ

abbrev pub codes : String → Text
codes String.[] = []
codes (String.◌∷◌ c s) = code c ∷ codes s

-- `v.startswith(s)`
unfoldable pub starts_with : Text → Text → Bool
starts_with v [] = true
starts_with [] (d ∷ s) = false
starts_with (c ∷ v) (d ∷ s) = c == d && starts_with v s

-- `v.endswith((c,))` for one character
unfoldable pub ends_with : Text → ℕ → Bool
ends_with [] d = false
ends_with (c ∷ []) d = c == d
ends_with (c ∷ v) d = ends_with v d

-- The first position of `s` in `v`.
unfoldable pub position : Text → Text → Option ℕ
unfolding starts_with
position [] s = if starts_with [] s then some 0 else none
position (c ∷ v) s =
    let later = position v s in if starts_with (c ∷ v) s then some 0 else Option.map suc later

-- `v.find(s, off)`, with `none` for -1
unfoldable pub find : Text → Text → ℕ → Option ℕ
unfolding position
find v s off =
    if ltb (length v) off then none else Option.map (λ k. off + k) (position (drop off v) s)

-- `v.split(c)`: the first piece and the others.
unfoldable pub split : ℕ → Text → Text × List Text
split d [] = ([], [])
split d (c ∷ v) = let (s, rest) = split d v in if c == d then ([], s ∷ rest) else (c ∷ s, rest)

-- `c.join(s ∷ rest)`
abbrev pub join : ℕ → Text → List Text → Text
join d s [] = s
join d s (t ∷ rest) = s ++ d ∷ join d t rest

decimal_onto : ℕ → ℕ → Text → Text
decimal_onto zero n digits = digits
decimal_onto (suc fuel) n digits =
    let more = decimal_onto fuel (n / 10) ((48 + n % 10) ∷ digits) in
    if ltb n 10 then (48 + n) ∷ digits else more

-- `str(n)`, with a digit for each of `n + 1` rounds at most
unfoldable pub decimal : ℕ → Text
unfolding decimal_onto
decimal n = decimal_onto (suc n) n []
