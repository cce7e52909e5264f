-- ===== src/Run/Launch/Kept.antt =====
-- What a run of cincan/frontend.py keeps of the log of the execution.
use cincan_command.Prelude.{
  Bool-cases, some, List, ◌++◌, ◌==◌, nat_eq, ◌≡◌, refl, inl, inr, ◌⊎◌, arith,
}
use cincan_command.Log.Json.{TimeFormat, FileLog, CommandLog}
use cincan_command.Run.{
  Call, Env, Fetch, Exec, returns, fetched, try_run, after_exec, after_download, after_interrupt,
}

module _ (T : TimeFormat) where
  -- The status and the streams of one log are those of the other.
  abbrev pub Same : CommandLog T → CommandLog T → Type 0
  Same log log' =
      (log'.stdout ≡ log.stdout) × (log'.stderr ≡ log.stderr) × (log'.exit_code ≡ log.exit_code)

  after_interrupt-Same :
      (f : Fetch T) (log l : CommandLog T) (calls : List Call)
      → (after_interrupt T f log calls).0 ≡ some l
      → Same log l
  unfolding after_interrupt
  after_interrupt-Same (fetched files) log l calls h = (ground arith, ground arith, ground arith)
  after_interrupt-Same Fetch.interrupted log l calls h = cc h
  after_interrupt-Same Fetch.raises log l calls h = cc h

  after_download-Same :
      (env : Env T) (f : Fetch T) (log l : CommandLog T)
      → (after_download T env f log).0 ≡ some l
      → Same log l
  unfolding after_download
  after_download-Same env (fetched files) log l h = (ground arith, ground arith, ground arith)
  after_download-Same env Fetch.interrupted log l h =
      after_interrupt-Same env.download_anyway log l _ h
  after_download-Same env Fetch.raises log l h = cc h

  -- The log that a run ends with is that of the execution, or the one before an interrupted one.
  pub try_run-Same :
      (env : Env T) (in_files : List (FileLog T)) (log l : CommandLog T) (e : Exec T)
      → env.exec log ≡ e
      → (try_run T env in_files log).0 ≡ some l
      → ((log' : CommandLog T) × (e ≡ returns log') × Same log' l)
        ⊎ ((e ≡ Exec.interrupted) × Same log l)
  unfolding try_run after_exec
  try_run-Same env in_files log l (returns log') e h =
      let log'' : CommandLog T = record log' { in_files = log'.in_files ++ in_files } in
      elim (Bool-cases (log'.exit_code == 0)) [
        | inl k ↦
            let h' = rw (e, k) at h in
            inl (log', refl, after_download-Same env env.download log'' l h')
        | inr k ↦
            let h' = rw (e, k) at h in inl (log', refl, (ground arith, ground arith, ground arith))
      ]
  try_run-Same env in_files log l Exec.interrupted e h =
      let h' = rw e at h in inr (refl, after_interrupt-Same env.download_anyway log l _ h')
  try_run-Same env in_files log l Exec.raises e h = let h' = rw e at h in cc h'
