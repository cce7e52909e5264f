-- ===== src/Session/Laws.antt =====
-- What the loop of `__container_exec` of cincan/frontend.py has collected when it ends.
use cincan_command.Prelude.{
  ℕ, Text, codes, length, length-append, Bool, true, false, Option, none, some, List, [], ◌∷◌, ◌++◌,
  ◌==◌, nat_eq, list_eq, if◌then◌else◌, ◌≡◌, refl, ap, ◌∙◌, arith, append_assoc, append-nil,
  Bool-cases, inl, inr,
}
use mathlib.Core.Option
use cincan_command.Session.{
  Ready, take_frame, take_input, ToolStream, Session, new_stream, start, collect, step, run,
  entry_of, Entry, recorded, on_frame, on_input,
}

abbrev after_frame : ℕ → Option (ℕ × List ℕ) → List ℕ → List ℕ
after_frame kind none rest = rest
after_frame kind (some (s_type, [])) rest = []
after_frame kind (some (s_type, b ∷ bytes)) rest =
    if s_type == kind then (b ∷ bytes) ++ rest else rest

-- The bytes of one stream, in their order, up to the first empty frame
abbrev pub output : ℕ → List Ready → List ℕ
output kind [] = []
output kind ((ready_frame, ready_input) ∷ rs) = after_frame kind ready_frame (output kind rs)

-- A stream has been given exactly `bytes`: it has counted and hashed them, and has buffered them or
-- written them on.
pub record Got (buffer_output : Bool) (bytes : List ℕ) (s : ToolStream) : Type 0 where
  pub counted : s.data_length ≡ length bytes
  pub hashed_all : s.hashed ≡ bytes
  pub raw_all : s.raw ≡ (if buffer_output then bytes else [])
  pub written_all : s.written ≡ (if buffer_output then [] else bytes)

Got-collect :
    (buffer_output : Bool) (bytes more : List ℕ) (s : ToolStream)
    → Got buffer_output bytes s
    → Got buffer_output (bytes ++ more) (collect buffer_output more s)
unfolding collect
Got-collect true bytes more s g = ground (arith, length-append bytes more)
Got-collect false bytes more s g = ground (arith, length-append bytes more)

run-closed :
    (buffer_output : Bool) (rs : List Ready) (t : Session)
    → t.socket_open ≡ false
    → run buffer_output rs t ≡ t
unfolding run
run-closed buffer_output [] t h = refl
run-closed buffer_output (r ∷ rs) t h = rw h refl

-- The input does not touch the two output streams.
take_input_keeps :
    (i : Option (List ℕ)) (t : Session)
    → ((take_input i t).stderr_s ≡ t.stderr_s)
      × ((take_input i t).stdout_s ≡ t.stdout_s)
      × ((take_input i t).socket_open ≡ t.socket_open)
unfolding take_input on_input
take_input_keeps none t = (refl, refl, refl)
take_input_keeps (some []) t = ground arith
take_input_keeps (some (b ∷ bytes)) t = ground arith

module _ (buffer_output : Bool) where
  run-open :
      (r : Ready) (rs : List Ready) (t : Session)
      → t.socket_open ≡ true
      → run buffer_output (r ∷ rs) t ≡ run buffer_output rs (step buffer_output r t)
  unfolding run
  run-open r rs t h = ground arith

  -- After an empty frame nothing more is read.
  run-end :
      (k : ℕ) (i : Option (List ℕ)) (rs : List Ready) (t : Session)
      → t.socket_open ≡ true
      → let t' = run buffer_output ((some (k, []), i) ∷ rs) t in
        (t'.stderr_s ≡ t.stderr_s) × (t'.stdout_s ≡ t.stdout_s)
  unfolding step take_frame on_frame
  run-end k i rs t h =
      let u : Session = record t { socket_open = false } in
      let (err, out, shut) = take_input_keeps i u in
      let e =
        run-open (some (k, []), i) rs t h ∙ run-closed buffer_output rs (take_input i u) shut in
      (ap (λ (v : Session). v.stderr_s) e ∙ err, ap (λ (v : Session). v.stdout_s) e ∙ out)

  -- What one round does to the streams of the container
  step-streams :
      (k b : ℕ) (bs : List ℕ) (i : Option (List ℕ)) (t : Session)
      → let t' = step buffer_output (some (k, b ∷ bs), i) t in
        (t'.stderr_s ≡ (if k == 2 then collect buffer_output (b ∷ bs) t.stderr_s else t.stderr_s))
        × (t'.stdout_s ≡ (
            if k == 1 then Option.map (collect buffer_output (b ∷ bs)) t.stdout_s else t.stdout_s))
        × (t'.socket_open ≡ t.socket_open)
  unfolding step take_frame on_frame
  step-streams k b bs i t =
      let u : Session = on_frame buffer_output k (b ∷ bs) t in
      let keeps = take_input_keeps i u in ground (arith, keeps)

  step-quiet :
      (i : Option (List ℕ)) (t : Session)
      → let t' = step buffer_output (none, i) t in
        (t'.stderr_s ≡ t.stderr_s) × (t'.stdout_s ≡ t.stdout_s) × (t'.socket_open ≡ t.socket_open)
  unfolding step take_frame
  step-quiet i t = take_input_keeps i t

  -- The error output has got the bytes of its frames.
  pub Got-run_stderr :
      (rs : List Ready) (t : Session) (bytes : List ℕ)
      → t.socket_open ≡ true
      → Got buffer_output bytes t.stderr_s
      → Got buffer_output (bytes ++ output 2 rs) (run buffer_output rs t).stderr_s
  Got-run_stderr [] t bytes h g = unfold run in rw append-nil g
  Got-run_stderr ((none, i) ∷ rs) t bytes h g =
      let (err, _, open') = step-quiet i t in
      rw (run-open (none, i) rs t h) (Got-run_stderr rs _ bytes (open' ∙ h) (rw err g))
  Got-run_stderr ((some (k, []), i) ∷ rs) t bytes h g =
      rw ((run-end k i rs t h).0, append-nil bytes) g
  Got-run_stderr ((some (k, b ∷ bs), i) ∷ rs) t bytes h g =
      let (err, _, open') = step-streams k b bs i t in
      elim (Bool-cases (k == 2)) [
        | inl e ↦
            rw
              (
                run-open (some (k, b ∷ bs), i) rs t h,
                e,
                ← append_assoc bytes (b ∷ bs) (output 2 rs),
              )
              (Got-run_stderr rs _ (bytes ++ b ∷ bs) (open' ∙ h)
                (rw (err, e) (Got-collect buffer_output bytes (b ∷ bs) t.stderr_s g)))
        | inr e ↦
            rw (run-open (some (k, b ∷ bs), i) rs t h, e)
              (Got-run_stderr rs _ bytes (open' ∙ h) (rw (err, e) g))
      ]

  -- The standard output likewise, if it is not reserved for a tar file.
  pub Got-run_stdout :
      (rs : List Ready) (t : Session) (s : ToolStream) (bytes : List ℕ)
      → t.socket_open ≡ true
      → t.stdout_s ≡ some s
      → Got buffer_output bytes s
      → (s' : ToolStream) × ((run buffer_output rs t).stdout_s ≡ some s')
        × Got buffer_output (bytes ++ output 1 rs) s'
  Got-run_stdout [] t s bytes h eq g = (s, unfold run in eq, rw append-nil g)
  Got-run_stdout ((none, i) ∷ rs) t s bytes h eq g =
      let (_, out, open') = step-quiet i t in
      rw (run-open (none, i) rs t h) (Got-run_stdout rs _ s bytes (open' ∙ h) (out ∙ eq) g)
  Got-run_stdout ((some (k, []), i) ∷ rs) t s bytes h eq g =
      (s, (run-end k i rs t h).1 ∙ eq, rw (append-nil bytes) g)
  Got-run_stdout ((some (k, b ∷ bs), i) ∷ rs) t s bytes h eq g =
      let (_, out, open') = step-streams k b bs i t in
      elim (Bool-cases (k == 1)) [
        | inl e ↦
            let out' : (step buffer_output (some (k, b ∷ bs), i) t).stdout_s
                ≡ some (collect buffer_output (b ∷ bs) s) =
              out ∙ rw (e, eq) refl in
            rw
              (
                run-open (some (k, b ∷ bs), i) rs t h,
                e,
                ← append_assoc bytes (b ∷ bs) (output 1 rs),
              )
              (Got-run_stdout rs _ _ (bytes ++ b ∷ bs) (open' ∙ h) out'
                (Got-collect buffer_output bytes (b ∷ bs) s g))
        | inr e ↦
            rw (run-open (some (k, b ∷ bs), i) rs t h, e)
              (Got-run_stdout rs _ s bytes (open' ∙ h) (out ∙ rw (e, eq) refl) g)
      ]

Got-new : (buffer_output : Bool) → Got buffer_output [] new_stream
Got-new true = record { counted = refl; hashed_all = refl; raw_all = refl; written_all = refl }
Got-new false = record { counted = refl; hashed_all = refl; raw_all = refl; written_all = refl }

-- At the end standard output, if it is written, and standard error have each counted, hashed, and
-- buffered or written exactly the bytes of their frames, in their order, up to the end of the
-- container's output.
pub run_lem :
    (buffer_output read_stdin : Bool) (rs : List Ready)
    → let t = run buffer_output rs (start read_stdin true) in
      Got buffer_output (output 2 rs) t.stderr_s
      × (s : ToolStream) × (t.stdout_s ≡ some s)
      × Got buffer_output (output 1 rs) s
unfolding start
run_lem buffer_output read_stdin rs =
    let t = start read_stdin true in
    let (s, eq, out) =
      Got-run_stdout buffer_output rs t new_stream [] refl refl (Got-new buffer_output) in
    (Got-run_stderr buffer_output rs t [] refl (Got-new buffer_output), s, eq, out)

unfoldable pub entry_for : Text → List ℕ → List Entry
entry_for path [] = []
entry_for path (b ∷ bytes) = (path, b ∷ bytes) ∷ []

entry_of_lem :
    (path : Text) (buffer_output : Bool) (bytes : List ℕ) (s : ToolStream)
    → Got buffer_output bytes s
    → entry_of path (some s) ≡ entry_for path bytes
unfolding entry_of entry_for
entry_of_lem path buffer_output [] s g = ground (arith, g.counted)
entry_of_lem path buffer_output (b ∷ bytes) s g = ground (arith, g.counted, g.hashed_all)

-- A run that writes standard output and exits with 0 records for each output stream with any bytes
-- the bytes of its frames, and one that fails records nothing.
pub recorded_lem :
    (buffer_output read_stdin : Bool) (rs : List Ready) (exit_code : ℕ)
    → (recorded exit_code (run buffer_output rs (start read_stdin true))).1 ≡ (
        if exit_code == 0
        then entry_for (codes "/dev/stdout") (output 1 rs)
          ++ entry_for (codes "/dev/stderr") (output 2 rs)
        else [])
unfolding recorded
recorded_lem buffer_output read_stdin rs exit_code =
    let (err, s, eq, out) = run_lem buffer_output read_stdin rs in
    rw
      (
        eq,
        entry_of_lem (codes "/dev/stdout") buffer_output (output 1 rs) s out,
        entry_of_lem (codes "/dev/stderr") buffer_output (output 2 rs) _ err,
      )
      (ground arith)
