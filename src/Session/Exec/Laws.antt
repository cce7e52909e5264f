-- ===== src/Session/Exec/Laws.antt =====
-- The log that `__container_exec` of cincan/frontend.py gives back.
use cincan_command.Prelude.{
  ℕ, Text, codes, Bool, true, false, not, ◌&&◌, none, some, List, [], ◌++◌, ◌==◌, nat_eq,
  if◌then◌else◌, ◌≡◌, refl, ap, ◌∙◌,
}
use cincan_command.Log.Json.{TimeFormat, CommandLog}
use cincan_command.Run.{Exec, returns}
use cincan_command.Session.{ToolStream, Session, start, run, recorded}
use cincan_command.Session.Laws.{Got, output, entry_for, run_lem, recorded_lem}
use cincan_command.Session.Exec.{
  Outcome, start_fails, exits, interrupted, cut_off, Settings, device_logs, collect_raw,
  log_session, after_start, container_exec, output_string, raw_of,
}

module _ (T : TimeFormat) (digest : List ℕ → Text) where
  log_session-output_string :
      (buffer_output : Bool) (status : ℕ) (t : Session) (log : CommandLog T) (s : ToolStream)
      (out err : List ℕ)
      → t.stdout_s ≡ some s
      → Got buffer_output out s
      → Got buffer_output err t.stderr_s
      → output_string T digest (log_session T digest buffer_output status t log)
        ≡ (if buffer_output then out ++ err else output_string T digest log)
  unfolding log_session collect_raw raw_of
  log_session-output_string true status t log s out err eq g k = rw (eq, g.raw_all, k.raw_all) refl
  log_session-output_string false status t log s out err eq g k = refl

  log_session-logs :
      (buffer_output : Bool) (status : ℕ) (t : Session) (log : CommandLog T)
      → let log' = log_session T digest buffer_output status t log in
        (log'.exit_code ≡ status)
        × (log'.out_files ≡ log.out_files ++ device_logs T digest (recorded status t).1)
  unfolding log_session collect_raw
  log_session-logs true status t log = (refl, refl)
  log_session-logs false status t log = (refl, refl)

module _ (T : TimeFormat) (digest : List ℕ → Text) (v : Settings) where
  abbrev pub terminal_fails : Bool
  terminal_fails = v.is_tty && v.read_stdin && not v.has_terminal

  -- What an execution that writes standard output makes of the container's end
  abbrev pub Ended : Outcome → CommandLog T → Exec T → Type 0
  Ended (start_fails status none) log e = e ≡ Exec.raises
  Ended (start_fails status (some message)) log e =
      e ≡ returns (record log { exit_code = status; stderr = message })
  Ended (exits rs status) log e =
      (log' : CommandLog T) × (e ≡ returns log')
      × (log'.exit_code ≡ status)
      × (output_string T digest log'
          ≡ (if v.buffer_output then output 1 rs ++ output 2 rs else output_string T digest log))
      × (log'.out_files
          ≡ log.out_files
            ++ device_logs T digest (
                if status == 0
                then entry_for (codes "/dev/stdout") (output 1 rs)
                  ++ entry_for (codes "/dev/stderr") (output 2 rs)
                else []))
  Ended interrupted log e = e ≡ Exec.interrupted
  Ended cut_off log e = e ≡ Exec.raises

  -- An execution that writes standard output, with a terminal if it needs one, ends as the container
  -- does. If the container's stream ends between two frames, it returns a log with the container's
  -- status. A buffered output is in the log in full, standard output in front of the error output,
  -- and one that is not buffered leaves the log as it is. Each of the two streams with any bytes gets
  -- a file entry with the hash of all its bytes if the status is 0, and none otherwise. If the start
  -- fails, the log gets the status and the message, or the execution raises if there is no error
  -- with the status. It raises if the stream ends within a frame, and is interrupted by Ctrl+C.
  pub container_exec_lem :
      (outcome : Outcome) (log : CommandLog T)
      → terminal_fails ≡ false
      → Ended outcome log (container_exec T digest v outcome true log)
  unfolding container_exec after_start
  container_exec_lem (start_fails status none) log h = rw h refl
  container_exec_lem (start_fails status (some message)) log h = rw h refl
  container_exec_lem interrupted log h = rw h refl
  container_exec_lem cut_off log h = rw h refl
  container_exec_lem (exits rs status) log h =
      let t : Session = run v.buffer_output rs (start v.read_stdin true) in
      let (err, s, eq, out) = run_lem v.buffer_output v.read_stdin rs in
      let (code, files) = log_session-logs T digest v.buffer_output status t log in
      (
        log_session T digest v.buffer_output status t log,
        rw h refl,
        code,
        log_session-output_string T digest v.buffer_output status t log s (output 1 rs)
            (output 2 rs) eq out err,
        files
            ∙ ap (λ es. log.out_files ++ device_logs T digest es)
                (recorded_lem v.buffer_output v.read_stdin rs status),
      )
