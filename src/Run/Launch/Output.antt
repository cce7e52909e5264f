-- ===== src/Run/Launch/Output.antt =====
-- `run` and `run_get_string` of cincan/frontend.py: a whole run, with the execution of the container.
use cincan_command.Prelude.{
  ℕ, Text, codes, Bool, Bool-cases, ◌⊎◌, [], true, false, not, Option, none, some, List, ◌++◌, ◌==◌,
  nat_eq, list_eq, ◌≡◌, refl, inl, inr, arith,
}
use mathlib.Core.Option
use cincan_command.Path.{PurePath}
use cincan_command.Main.{Tool}
use cincan_command.Log.Json.{TimeFormat, CommandLog}
use cincan_command.Session.Exec.{
  Outcome, start_fails, exits, interrupted, cut_off, Settings, container_exec, output_string,
}
use cincan_command.Session.Exec.Laws.{Ended, container_exec_lem, terminal_fails}
use cincan_command.Session.Exec.Streamed.{IsFresh, container_exec-interrupted}
use cincan_command.Run.Launch.Fresh.{launch-IsFresh}
use cincan_command.Session.Laws.{output}
use cincan_command.Run.{Env, Exec, returns, Finished}
use cincan_command.Run.Launch.{World, file_logs, host_names, run_tool}
use cincan_command.Run.Launch.Kept.{Same, try_run-Same}
use cincan_command.Run.Launch.Files.{run_inv, run_tool_inv}

-- `self.output_tar != '-'`
abbrev pub write_stdout : Option Text → Bool
write_stdout none = true
write_stdout (some v) = not (v == codes "-")

abbrev pub settings_of : Tool → Bool → Bool → Settings
settings_of t buffer_output has_terminal = record {
  is_tty = t.is_tty;
  read_stdin = t.read_stdin;
  buffer_output = buffer_output;
  has_terminal = has_terminal;
}

module _ (T : TimeFormat) where
  unfoldable pub log_of_finished : Option (Finished T) → Option (CommandLog T)
  log_of_finished none = none
  log_of_finished (some fin) = some fin.log

module _ (T : TimeFormat) (w : World T) (env : Env T) (work_dir : PurePath) (t : Tool)
    (has_terminal : Bool) where
  -- The parts of a run that are not the execution are those of the given one.
  unfoldable pub executing : Bool → Outcome → Env T
  unfolding container_exec
  executing buffer_output outcome = record env {
    exec = λ log.
        container_exec T w.digest (settings_of t buffer_output has_terminal) outcome
          (write_stdout t.output_tar) log;
  }

  -- `run(args)`
  unfoldable pub run_args : Outcome → List Text → Option (CommandLog T)
  unfolding executing log_of_finished run_tool
  run_args outcome args =
      log_of_finished T (run_tool T w (executing false outcome) work_dir t args).0

  -- `run_get_string(args)`
  unfoldable pub run_get_string : Outcome → List Text → Option (List ℕ)
  unfolding executing log_of_finished run_tool
  run_get_string outcome args =
      Option.map (output_string T w.digest)
        (log_of_finished T (run_tool T w (executing true outcome) work_dir t args).0)

module _ (T : TimeFormat) where
  -- A run that returns has begun with a fresh log, and its execution has returned another with the
  -- streams and the status of the run's, or it has been interrupted.
  pub execution_inv :
      (w : World T) (env : Env T) (work_dir : PurePath) (t : Tool)
      (has_terminal buffer_output : Bool) (outcome : Outcome) (args : List Text) (fin : Finished T)
      → (run_tool T w
          (executing T w env work_dir t has_terminal buffer_output outcome)
          work_dir
          t
          args).0
        ≡ some fin
      → (log : CommandLog T) × IsFresh T log
        × (let e =
              container_exec T w.digest
                (settings_of t buffer_output has_terminal)
                outcome
                (write_stdout t.output_tar)
                log in
            ((log' : CommandLog T) × (e ≡ returns log') × Same T log' fin.log)
            ⊎ ((e ≡ Exec.interrupted) × Same T log fin.log))
  unfolding executing
  execution_inv w env work_dir t has_terminal buffer_output outcome args fin h =
      let env' : Env T = executing T w env work_dir t has_terminal buffer_output outcome in
      let (files, entry, user_cmd, log, u, content, l, ran) =
        run_tool_inv T w env' work_dir t args fin h in
      let (tried, _) =
        run_inv T env' work_dir (host_names T w files) (file_logs T w u.in_files) log fin ran in
      (
        log,
        launch-IsFresh T w t args files entry user_cmd log u content l,
        try_run-Same T env' (file_logs T w u.in_files) log fin.log _ refl tried,
      )

  text_inv :
      (digest : List ℕ → Text) (o : Option (Finished T)) (s : List ℕ)
      → Option.map (output_string T digest) (log_of_finished T o) ≡ some s
      → (fin : Finished T) × (o ≡ some fin) × (output_string T digest fin.log ≡ s)
  unfolding log_of_finished
  text_inv digest none s h = cc h
  text_inv digest (some fin) s h = (fin, refl, ground arith)

  -- The text of a run that returns one
  abbrev pub IsText : Outcome → List ℕ → Type 0
  IsText (start_fails status none) s = ⊥
  IsText (start_fails status (some message)) s = s ≡ message
  IsText (exits rs status) s = s ≡ output 1 rs ++ output 2 rs
  IsText interrupted s = s ≡ []
  IsText cut_off s = ⊥

  Ended-IsText :
      (digest : List ℕ → Text) (v : Settings) (outcome : Outcome) (log log' : CommandLog T)
      → v.buffer_output ≡ true
      → IsFresh T log
      → Ended T digest v outcome log (returns log')
      → IsText outcome (output_string T digest log')
  Ended-IsText digest v (start_fails status none) log log' b fresh e = cc e
  Ended-IsText digest v (start_fails status (some message)) log log' b (code, out, err) e =
      ground (arith, e, out)
  Ended-IsText digest v (exits rs status) log log' b fresh (l, e, code, out, files) =
      let same : l ≡ log' = ground (arith, e) in rw (← same) (rw b at out)
  Ended-IsText digest v interrupted log log' b fresh e = cc e
  Ended-IsText digest v cut_off log log' b fresh e = cc e

  container_exec-IsText :
      (digest : List ℕ → Text) (t : Tool) (has_terminal writes : Bool) (outcome : Outcome)
      (log log' : CommandLog T)
      → writes ≡ true
      → IsFresh T log
      → container_exec T digest (settings_of t true has_terminal) outcome writes log ≡ returns log'
      → IsText outcome (output_string T digest log')
  unfolding container_exec
  container_exec-IsText digest t has_terminal false outcome log log' o fresh e = cc o
  container_exec-IsText digest t has_terminal true outcome log log' o fresh e =
      let v : Settings = settings_of t true has_terminal in
      elim (Bool-cases (terminal_fails T digest v)) [
        | inl f ↦ let e' = rw f at e in cc e'
        | inr f ↦
            let ended = container_exec_lem T digest v outcome log f in
            Ended-IsText digest v outcome log log' refl fresh (rw e at ended)
      ]

  -- If `run_get_string` returns a text, and standard output is not taken by a tar file: the text is
  -- all that the container has put out, standard output in front of the error output, whatever the
  -- status, and whether the download has been interrupted; or the message of a start that fails; or
  -- empty, whatever the container has put out, after Ctrl+C during the execution. No text is returned
  -- if the container's stream ends within a frame, or if a start fails without an error.
  pub run_get_string-IsText :
      (w : World T) (env : Env T) (work_dir : PurePath) (t : Tool) (has_terminal : Bool)
      (outcome : Outcome) (args : List Text) (s : List ℕ)
      → write_stdout t.output_tar ≡ true
      → run_get_string T w env work_dir t has_terminal outcome args ≡ some s
      → IsText outcome s
  unfolding run_get_string
  run_get_string-IsText w env work_dir t has_terminal outcome args s o h =
      let (fin, k, text) = text_inv w.digest _ s h in
      let (log, fresh, ended) =
        execution_inv w env work_dir t has_terminal true outcome args fin k in
      rw (← text) (elim ended [
        | inl (log', x, (out, err, code)) ↦
            rw (out, err)
              (container_exec-IsText w.digest t has_terminal _ outcome log log' o fresh x)
        | inr (x, (out, err, code)) ↦
            let e =
              container_exec-interrupted T w.digest (settings_of t true has_terminal) _ log outcome
                x in
            rw (e, out, err, fresh.1, fresh.2) refl
      ])
