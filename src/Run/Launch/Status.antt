-- ===== src/Run/Launch/Status.antt =====
-- The status and the output of `run` of cincan/frontend.py.
use cincan_command.Prelude.{
  inl, inr, Text, Bool, false, Option, none, some, List, ◌≡◌, refl, ◌∙◌, arith,
}
use cincan_command.Path.{PurePath}
use cincan_command.Main.{Tool}
use cincan_command.Log.Json.{TimeFormat, CommandLog}
use cincan_command.Session.Exec.{Outcome, Settings}
use cincan_command.Session.Exec.Streamed.{
  IsStreamed, container_exec-interrupted, container_exec-IsStreamed,
}
use cincan_command.Run.{Env, Finished}
use cincan_command.Run.Launch.{World}
use cincan_command.Run.Launch.Output.{settings_of, log_of_finished, run_args, execution_inv}

module _ (T : TimeFormat) where
  log_of_finished_inv :
      (o : Option (Finished T)) (log : CommandLog T)
      → log_of_finished T o ≡ some log
      → (fin : Finished T) × (o ≡ some fin) × (fin.log ≡ log)
  unfolding log_of_finished
  log_of_finished_inv none log h = cc h
  log_of_finished_inv (some fin) log h = (fin, refl, ground arith)

  -- The log of a run that returns ends with the container's status and no output but the message of a
  -- start that fails, or with nothing of them after Ctrl+C.
  pub run_args-IsStreamed :
      (w : World T) (env : Env T) (work_dir : PurePath) (t : Tool) (has_terminal : Bool)
      (outcome : Outcome) (args : List Text) (log : CommandLog T)
      → run_args T w env work_dir t has_terminal outcome args ≡ some log
      → IsStreamed T outcome log
  unfolding run_args
  run_args-IsStreamed w env work_dir t has_terminal outcome args log h =
      let v : Settings = settings_of t false has_terminal in
      let (fin, k, same) = log_of_finished_inv _ log h in
      let (log', fresh, ended) =
        execution_inv T w env work_dir t has_terminal false outcome args fin k in
      rw (← same) (elim ended [
        | inl (log'', x, (out, err, code)) ↦
            let (ends, o) =
              container_exec-IsStreamed T w.digest v refl _ log' log'' outcome fresh x in
            (rw (code, err) ends, out ∙ o)
        | inr (x, (out, err, code)) ↦
            let e = container_exec-interrupted T w.digest v _ log' outcome x in
            rw e ((code ∙ fresh.0, err ∙ fresh.2), out ∙ fresh.1)
      ])
