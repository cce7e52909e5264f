-- ===== src/Images/Progress.antt =====
-- `__pull_image_with_progress` of cincan/image_fetcher.py: a row of the terminal for each layer of an
-- image, drawn anew at every change. Rows are counted from the one in which the first layer stands.
pub mod Width
pub mod Shown
use cincan_command.Prelude.{
  ℕ, zero, suc, ◌+◌, ◌-◌, Text, codes, length, take, drop, ltb, Bool, true, false, not, ◌&&◌, List,
  [], ◌∷◌, ◌++◌, ◌==◌, nat_eq, list_eq, if◌then◌else◌,
}

-- What `pull` reports. An absent entry is empty.
pub record Status : Type 0 where
  pub id : Text
  pub status : Text
  pub progress : Text

spaces : ℕ → Text
spaces zero = []
spaces (suc n) = b' ' ∷ spaces n

-- `f'{v:<{n}}'`
unfoldable pub pad : ℕ → Text → Text
unfolding spaces
pad n v = v ++ spaces (n - length v)

-- What does not fit behind the repository's name is cut off: `line[:-diff]`.
unfoldable pub fit : Text → ℕ → Text → Text
fit repository t_width line =
    let full = length (repository ++ codes ": " ++ line) in
    if ltb t_width full then take (length line - (full - t_width)) line else line

-- `line`, before it is cut
unfoldable pub line_of : Status → Text
unfolding pad
line_of s =
    let layer_id_padded = if s.id == [] then [] else pad 12 s.id ++ codes ": " in
    layer_id_padded ++ pad 20 s.status ++ codes " " ++ s.progress

-- The row that `log_row` gives out, for a terminal of some width
unfoldable pub row : Text → ℕ → Status → Text
unfolding line_of fit
row repository t_width s = fit repository t_width (line_of s)

-- The terminal: what stands in each row, and the row of the cursor
pub record Terminal : Type 0 where
  pub rows : ℕ → Text
  pub cursor : ℕ

-- A row is written over what stands there, and the cursor goes to the next one.
unfoldable pub write_row : Text → Terminal → Terminal
write_row v t = record {
  rows = λ i. if i == t.cursor then v ++ drop (length v) (t.rows i) else t.rows i;
  cursor = suc t.cursor;
}

-- `NavigateCursor.up(n)`: terminals take 0 for 1.
unfoldable pub up : ℕ → Terminal → Terminal
up n t = record t { cursor = t.cursor - (if n == 0 then 1 else n) }

abbrev pub Layers : Type 0
Layers = List (Text × Status)

-- `if locations.get(s_id)`
unfoldable pub known : Text → Layers → Bool
known s_id [] = false
known s_id ((i, s) ∷ ls) = if i == s_id then true else known s_id ls

-- `locations[s_id]["state"] = status`
unfoldable pub set_state : Text → Status → Layers → Layers
set_state s_id status [] = []
set_state s_id status ((i, s) ∷ ls) =
    let rest = (i, s) ∷ set_state s_id status ls in if i == s_id then (i, status) ∷ ls else rest

pub record Progress : Type 0 where
  -- the layers by their `loc`
  pub locations : Layers
  pub first_time : Bool
  pub cur_loc : ℕ
  pub terminal : Terminal

module _ (repository : Text) (t_width : ℕ) where
  -- All layers in their order
  unfoldable pub draw : Layers → Terminal → Terminal
  unfolding write_row
  draw [] t = t
  draw ((i, s) ∷ ls) t = draw ls (write_row (row repository t_width s) t)

  -- To the first row, if the layers have been drawn
  rewind : Progress → Progress
  rewind p = record p { terminal = up p.cur_loc p.terminal; cur_loc = 0 }

  new_layer : Status → Progress → Progress
  new_layer s p = record p {
    locations = p.locations ++ (s.id, s) ∷ [];
    cur_loc = p.cur_loc + 1;
    terminal = write_row (row repository t_width s) p.terminal;
    first_time = true;
  }

  redraw : Status → Progress → Progress
  redraw s p =
      let locations = set_state s.id s p.locations in
      record {
        locations = locations;
        first_time = false;
        cur_loc = p.cur_loc + length locations;
        terminal = draw locations p.terminal;
      }

  -- One round of the loop over the reports
  unfoldable pub report : Status → Progress → Progress
  unfolding rewind new_layer redraw write_row up known set_state draw
  report s p =
      let p' = if not p.first_time then rewind p else p in
      if s.id == []
      then record p { terminal = write_row (row repository t_width s) p.terminal }
      else if not (known s.id p'.locations)
      then new_layer s p'
      else redraw s (if p'.first_time then rewind p' else p')

  unfoldable pub reports : List Status → Progress → Progress
  unfolding report
  reports [] p = p
  reports (s ∷ ss) p = reports ss (report s p)

abbrev pub start : Terminal → Progress
start t = record { locations = []; first_time = true; cur_loc = 0; terminal = t }
