-- ===== src/Images/Progress/Shown.antt =====
-- What stands on the terminal while an image is pulled, by cincan/image_fetcher.py.
use cincan_command.Prelude.{
  ℕ, suc, ◌+◌, ◌<◌, Text, length, starts_with, starts_with-append, All, Bool-cases, true, false,
  List, [], ◌∷◌, ==_self, nat_eq, list_eq, ◌≡◌, ◌≢◌, ◌⊎◌, inl, inr, refl, arith, sym, ap, ◌∙◌,
}
use mathlib.Core.Path.{subst}
use cincan_command.Images.Progress.{
  Status, row, Terminal, write_row, up, Layers, known, set_state, Progress, draw, rewind, new_layer,
  redraw, report, reports, start,
}

-- The rows from `i` on begin with what is to be shown of the layers.
module _ (repository : Text) (t_width : ℕ) where
  abbrev pub Shown : ℕ → Layers → Terminal → Type 0
  Shown i [] t = Unit
  Shown i ((k, s) ∷ ls) t =
      (starts_with (t.rows i) (row repository t_width s) ≡ true) × Shown (suc i) ls t

  draw_lem :
      (ls : Layers) (t : Terminal)
      → Shown t.cursor ls (draw repository t_width ls t)
        × ((draw repository t_width ls t).cursor ≡ t.cursor + length ls)
        × ((i : ℕ) → i < t.cursor → (draw repository t_width ls t).rows i ≡ t.rows i)
  unfolding draw write_row
  draw_lem [] t = (tt, omega arith, λ i l. refl)
  draw_lem ((k, s) ∷ ls) t =
      let (shown, cursor, before) = draw_lem ls (write_row (row repository t_width s) t) in
      (
        (
          rw (before t.cursor (omega arith))
              (rw (==_self t.cursor) (starts_with-append (row repository t_width s) _)),
          shown,
        ),
        omega (arith, cursor),
        λ i l. before i (omega arith) ∙ ground arith,
      )

  -- Between two reports the cursor stands behind the rows that have been drawn since the first one,
  -- and once all layers have been drawn, their rows show them.
  pub record IsDrawn (p : Progress) : Type 0 where
    pub at : p.terminal.cursor ≡ p.cur_loc
    pub some_drawn : p.first_time ≡ true → (p.cur_loc ≢ 0) ⊎ (p.locations ≡ [])
    pub all_drawn : p.first_time ≡ false → (p.cur_loc ≢ 0) × Shown 0 p.locations p.terminal

  report-known :
      (s : Status) (p : Progress)
      → s.id ≢ []
      → known s.id p.locations ≡ true
      → report repository t_width s p ≡ redraw repository t_width s (rewind repository t_width p)
  unfolding report rewind
  report-known s p n k = elim (Bool-cases p.first_time) [
    | inl f ↦ rw (f, k) (ground arith)
    | inr f ↦ rw (f, k) (ground arith)
  ]

  report-new_first :
      (s : Status) (p : Progress)
      → s.id ≢ []
      → known s.id p.locations ≡ false
      → p.first_time ≡ true
      → report repository t_width s p ≡ new_layer repository t_width s p
  unfolding report
  report-new_first s p n k f = simp (f, k) (ground arith)

  report-new_again :
      (s : Status) (p : Progress)
      → s.id ≢ []
      → known s.id p.locations ≡ false
      → p.first_time ≡ false
      → report repository t_width s p ≡ new_layer repository t_width s (rewind repository t_width p)
  unfolding report rewind
  report-new_again s p n k f = simp (f, k) (ground arith)

  locations-rewind : (p : Progress) → (rewind repository t_width p).locations ≡ p.locations
  unfolding rewind
  locations-rewind p = refl

  rewind-start :
      (p : Progress)
      → p.terminal.cursor ≡ p.cur_loc
      → p.cur_loc ≢ 0
      → ((rewind repository t_width p).terminal.cursor ≡ 0)
        × ((rewind repository t_width p).cur_loc ≡ 0)
  unfolding rewind up
  rewind-start p c n = (ground arith, refl)

  length-set_state : (i : Text) (s : Status) (ls : Layers) → length (set_state i s ls) ≡ length ls
  unfolding set_state
  length-set_state i s [] = refl
  length-set_state i s ((k, r) ∷ ls) = ground (arith, length-set_state i s ls)

  known-length : (i : Text) (ls : Layers) → known i ls ≡ true → length ls ≢ 0
  unfolding known
  known-length i [] k = cc
  known-length i (l ∷ ls) k = λ e. omega (arith, e)

  redraw_lem :
      (s : Status) (q : Progress)
      → q.terminal.cursor ≡ 0
      → q.cur_loc ≡ 0
      → let q' = redraw repository t_width s q in
        (q'.locations ≡ set_state s.id s q.locations)
        × Shown 0 q'.locations q'.terminal
        × (q'.terminal.cursor ≡ length q'.locations)
        × (q'.cur_loc ≡ length q'.locations)
        × (q'.first_time ≡ false)
  unfolding redraw
  redraw_lem s q c z =
      let ls : Layers = set_state s.id s q.locations in
      let (shown, cursor, _) = draw_lem ls q.terminal in
      (
        refl,
        subst (λ i. Shown i ls (draw repository t_width ls q.terminal)) c shown,
        omega (arith, cursor, c),
        omega (arith, z),
        refl,
      )

  redraw-IsDrawn :
      (s : Status) (q : Progress)
      → q.terminal.cursor ≡ 0
      → q.cur_loc ≡ 0
      → known s.id q.locations ≡ true
      → IsDrawn (redraw repository t_width s q)
  redraw-IsDrawn s q c z k =
      let (e, shown, cursor, l, f) = redraw_lem s q c z in
      record {
        at = omega (arith, cursor, l);
        some_drawn = λ f'. cc;
        all_drawn = λ f'. (
          λ o. known-length s.id q.locations k (
              omega (
                arith,
                o,
                l,
                length-set_state s.id s q.locations,
                ap (λ (ls : Layers). length ls) e,
              )),
          shown,
        );
      }

  new_layer-IsDrawn :
      (s : Status) (q : Progress)
      → q.terminal.cursor ≡ q.cur_loc
      → IsDrawn (new_layer repository t_width s q)
  unfolding new_layer write_row
  new_layer-IsDrawn s q c = record {
    at = omega (arith, c);
    some_drawn = λ f. inl (λ e. omega (arith, e));
    all_drawn = λ f. cc;
  }

  drawn-ne-zero : (i : Text) (p : Progress) → IsDrawn p → known i p.locations ≡ true → p.cur_loc ≢ 0
  drawn-ne-zero i p d k = elim (Bool-cases p.first_time) [
    | inl f ↦ elim (d.some_drawn f) [
      | inl n ↦ n
      | inr e ↦ absurd (known-length i p.locations k (rw e refl))
    ]
    | inr f ↦ (d.all_drawn f).0
  ]

  report-IsDrawn :
      (s : Status) (p : Progress) → s.id ≢ [] → IsDrawn p → IsDrawn (report repository t_width s p)
  report-IsDrawn s p n d = elim (Bool-cases (known s.id p.locations)) [
    | inl k ↦
        let (c, z) = rewind-start p d.at (drawn-ne-zero s.id p d k) in
        rw (report-known s p n k)
          (redraw-IsDrawn s (rewind repository t_width p) c z (rw (locations-rewind p) k))
    | inr k ↦ elim (Bool-cases p.first_time) [
      | inl f ↦ rw (report-new_first s p n k f) (new_layer-IsDrawn s p d.at)
      | inr f ↦
          let (c, z) = rewind-start p d.at (d.all_drawn f).0 in
          rw (report-new_again s p n k f)
            (new_layer-IsDrawn s (rewind repository t_width p) (c ∙ sym z))
    ]
  ]

  reports-IsDrawn :
      (ss : List Status) (p : Progress)
      → All (λ s. s.id ≢ []) ss
      → IsDrawn p
      → IsDrawn (reports repository t_width ss p)
  unfolding reports
  reports-IsDrawn [] p n d = d
  reports-IsDrawn (s ∷ ss) p n d =
      reports-IsDrawn ss (report repository t_width s p) n.1 (report-IsDrawn s p n.0 d)

  -- If all reports are about layers, and the last one is about a layer that is known, then each
  -- layer's row begins with the layer's latest state, in the order in which the layers came up, the
  -- cursor stands behind them, and of the layers' states only that of the last report is new. Rows
  -- are counted from the one where the cursor stood at first.
  pub report-Shown :
      (ss : List Status) (s : Status) (t : Terminal)
      → All (λ s. s.id ≢ []) ss
      → s.id ≢ []
      → t.cursor ≡ 0
      → known s.id (reports repository t_width ss (start t)).locations ≡ true
      → let p = reports repository t_width ss (start t) in
        let q = report repository t_width s p in
        (q.locations ≡ set_state s.id s p.locations)
        × Shown 0 q.locations q.terminal
        × (q.terminal.cursor ≡ length q.locations)
  report-Shown ss s t n m c k =
      let p : Progress = reports repository t_width ss (start t) in
      let d =
        reports-IsDrawn ss (start t) n
          (record { at = c; some_drawn = λ f. inr refl; all_drawn = λ f. cc }) in
      let (c', z) = rewind-start p d.at (drawn-ne-zero s.id p d k) in
      let (e, shown, cursor, _, _) = redraw_lem s (rewind repository t_width p) c' z in
      rw (report-known s p m k) (e ∙ ap (set_state s.id s) (locations-rewind p), shown, cursor)
