-- ===== src/Run/Cleanup.antt =====
-- What `__run` of cincan/frontend.py promises on every way out.
use cincan_command.Prelude.{
  Text, contains, contains-append, Bool, Bool-cases, true, false, not, ◌&&◌, none, List, [], ◌∷◌,
  ◌++◌, ◌==◌, nat_eq, if◌then◌else◌, ◌≡◌, inl, inr, refl, arith,
}
use cincan_command.Path.{PurePath}
use cincan_command.Log.Json.{TimeFormat, FileLog, CommandLog}
use cincan_command.Run.{
  Call, executed, downloaded, killed, committed, removed, image_removed, call_eq, Exec, returns,
  Fetch, fetched, Env, after_interrupt, after_download, after_exec, try_run, remove_container,
  clean_up, run,
}

module _ (T : TimeFormat) (env : Env T) where
  -- What is done in the end, if the commit of the container returns
  abbrev pub last_calls : List Call
  last_calls =
      killed ∷ (if env.create_image then committed ∷ [] else [])
      ++ removed ∷ (if env.removes && not env.loaded_image then image_removed ∷ [] else [])

  clean_up-calls : (env.create_image && not env.commits) ≡ false → (clean_up T env).1 ≡ last_calls
  unfolding clean_up remove_container
  clean_up-calls h = ground arith

  -- The calls of the part that is tried: nothing is removed, and results are downloaded or not.
  abbrev Tried : Bool → List Call → Type 0
  Tried b calls = (contains calls removed ≡ false) × (contains calls downloaded ≡ b)

  after_interrupt-Tried :
      (f : Fetch T) (log : CommandLog T) (calls : List Call)
      → contains calls removed ≡ false
      → Tried true (after_interrupt T f log calls).1
  unfolding after_interrupt call_eq
  after_interrupt-Tried (fetched files) log calls h = (
    ground (arith, contains-append calls (downloaded ∷ []) removed),
    ground (arith, contains-append calls (downloaded ∷ []) downloaded),
  )
  after_interrupt-Tried Fetch.interrupted log calls h = (
    ground (arith, contains-append calls (downloaded ∷ []) removed),
    ground (arith, contains-append calls (downloaded ∷ []) downloaded),
  )
  after_interrupt-Tried Fetch.raises log calls h = (
    ground (arith, contains-append calls (downloaded ∷ []) removed),
    ground (arith, contains-append calls (downloaded ∷ []) downloaded),
  )

  after_download-Tried :
      (f : Fetch T) (log : CommandLog T) → Tried true (after_download T env f log).1
  unfolding after_download call_eq
  after_download-Tried (fetched files) log = (refl, refl)
  after_download-Tried Fetch.interrupted log =
      after_interrupt-Tried env.download_anyway log (executed ∷ downloaded ∷ []) refl
  after_download-Tried Fetch.raises log = (refl, refl)

  -- Results are wanted after an execution that exits with 0, or is interrupted.
  abbrev pub wants_results : Exec T → Bool
  wants_results (returns log) = log.exit_code == 0
  wants_results Exec.interrupted = true
  wants_results Exec.raises = false

  after_exec-Tried :
      (in_files : List (FileLog T)) (log : CommandLog T) (r : Exec T)
      → Tried (wants_results r) (after_exec T env in_files log r).1
  unfolding after_exec call_eq
  after_exec-Tried in_files log (returns log') = elim (Bool-cases (log'.exit_code == 0)) [
    | inl e ↦ rw e (after_download-Tried env.download _)
    | inr e ↦ rw e (refl, refl)
  ]
  after_exec-Tried in_files log Exec.interrupted =
      after_interrupt-Tried env.download_anyway log (executed ∷ []) refl
  after_exec-Tried in_files log Exec.raises = (refl, refl)

  -- On every way out, by a result, an exception or Ctrl+C, the container is killed, its image is
  -- made if that is asked for, and the container is removed, once and as the last thing but for
  -- an image that was made for the run. Before that, results are downloaded exactly if the
  -- execution exited with 0 or was interrupted. The condition: the making of an image does not
  -- raise.
  pub run-last_calls :
      (work_dir : PurePath) (uploaded : List Text) (in_files : List (FileLog T))
      (log : CommandLog T)
      → (env.create_image && not env.commits) ≡ false
      → (calls : List Call) × ((run T env work_dir uploaded in_files log).1 ≡ calls ++ last_calls)
        × (contains calls removed ≡ false)
        × (contains calls downloaded ≡ wants_results (env.exec log))
  unfolding run try_run
  run-last_calls work_dir uploaded in_files log h =
      let (a, b) = after_exec-Tried in_files log (env.exec log) in
      ((after_exec T env in_files log (env.exec log)).1, rw (clean_up-calls h) refl, a, b)

  -- If the making of an image raises, the container is left there.
  pub run-commit_raises :
      (work_dir : PurePath) (uploaded : List Text) (in_files : List (FileLog T))
      (log : CommandLog T)
      → env.create_image ≡ true
      → env.commits ≡ false
      → ((run T env work_dir uploaded in_files log).0 ≡ none)
        × (contains (run T env work_dir uploaded in_files log).1 removed ≡ false)
  unfolding run try_run clean_up call_eq
  run-commit_raises work_dir uploaded in_files log c k =
      let (a, _) = after_exec-Tried in_files log (env.exec log) in
      (
        ground arith,
        ground (
          arith,
          a,
          contains-append (after_exec T env in_files log (env.exec log)).1 (killed ∷ committed ∷ [])
              removed,
        ),
      )
