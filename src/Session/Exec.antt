-- ===== src/Session/Exec.antt =====
-- `__container_exec` of cincan/frontend.py as a whole, around its loop, and `run_get_string`.
pub mod Laws
pub mod Streamed
use cincan_command.Prelude.{
  ℕ, Text, codes, Bool, true, false, not, ◌&&◌, Option, none, some, List, [], ◌∷◌, ◌++◌, ◌==◌,
  nat_eq, if◌then◌else◌,
}
use cincan_command.Path.{PurePath, parse}
use cincan_command.Log.Json.{TimeFormat, FileLog, CommandLog}
use cincan_command.Run.{Exec, returns}
use cincan_command.Session.{ToolStream, Session, Ready, start, run, Entry, recorded}

-- What comes of the container: `container.start()`, the loop and `container.wait()`
pub data Outcome : Type 0 where
  -- the start fails, with the status and the message of the error that `wait` tells, if it tells one
  start_fails : ℕ → Option (List ℕ) → Outcome
  -- what the calls of `select` find, with whole frames, and the status at the end
  exits : List Ready → ℕ → Outcome
  -- Ctrl+C before there is a status
  interrupted : Outcome
  -- the container's stream ends within a frame, which is a `sys.exit`
  cut_off : Outcome

-- The attributes of the tool that `__container_exec` reads, and whether its input is a terminal
pub record Settings : Type 0 where
  pub is_tty : Bool
  pub read_stdin : Bool
  pub buffer_output : Bool
  pub has_terminal : Bool

raw_of : Option ToolStream → List ℕ
raw_of none = []
raw_of (some s) = s.raw

module _ (T : TimeFormat) (digest : List ℕ → Text) where
  -- The log entries of device files, which have no time
  unfoldable pub device_logs : List Entry → List (FileLog T)
  unfolding parse
  device_logs [] = []
  device_logs ((path, bytes) ∷ rest) =
      record { path = parse path; digest = digest bytes; timestamp = none } ∷ device_logs rest

  -- The raw data, which only a run that buffers puts into the log
  unfoldable collect_raw : Bool → Session → CommandLog T → CommandLog T
  unfolding raw_of
  collect_raw buffer_output t log =
      if buffer_output
      then record log {
        stdin = raw_of t.stdin_s;
        stdout = raw_of t.stdout_s;
        stderr = t.stderr_s.raw;
      }
      else log

  -- What is done with the log behind the loop
  unfoldable log_session : Bool → ℕ → Session → CommandLog T → CommandLog T
  unfolding collect_raw device_logs recorded
  log_session buffer_output status t log =
      let (ins, outs) = recorded status t in
      let log' = collect_raw buffer_output t (record log { exit_code = status }) in
      record log' {
        in_files = log'.in_files ++ device_logs ins;
        out_files = log'.out_files ++ device_logs outs;
      }

  -- Ctrl+C leaves the log as it is. An error that is not there is a text, which has no `get`.
  unfoldable after_start : Settings → Bool → CommandLog T → Outcome → Exec T
  unfolding log_session run start
  after_start v write_stdout log (start_fails status none) = Exec.raises
  after_start v write_stdout log (start_fails status (some message)) =
      returns (record log { exit_code = status; stderr = message })
  after_start v write_stdout log (exits rs status) = returns (
      log_session v.buffer_output status (run v.buffer_output rs (start v.read_stdin write_stdout))
        log)
  after_start v write_stdout log interrupted = Exec.interrupted
  after_start v write_stdout log cut_off = Exec.raises

  -- `__container_exec`. It raises if a terminal is asked for and there is none.
  unfoldable pub container_exec : Settings → Outcome → Bool → CommandLog T → Exec T
  unfolding after_start
  container_exec v outcome write_stdout log =
      if v.is_tty && v.read_stdin && not v.has_terminal
      then Exec.raises
      else after_start v write_stdout log outcome

  -- The bytes of the text that `run_get_string` gives
  abbrev pub output_string : CommandLog T → List ℕ
  output_string log = log.stdout ++ log.stderr
