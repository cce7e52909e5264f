-- ===== src/Run/Launch/Files.antt =====
-- What the log of `__run` of cincan/frontend.py says of the files that go in and come out.
use cincan_command.Prelude.{
  Text, sort, text_le, Bool-cases, true, Option, Option-cases, none, some, List, [], ◌∷◌, ◌++◌,
  ◌==◌, append-nil, nat_eq, ◌≡◌, refl, sym, ap, ◌∙◌, inl, inr, arith,
}
use cincan_command.Path.{PurePath}
use cincan_command.Main.{Tool}
use cincan_command.Frontend.{Start, container, exits}
use cincan_command.Resolver.{Resolver, parse_all}
use cincan_command.Resolver.Upload.{resolve_upload_files}
use cincan_command.Tar.Upload.{Content, Upload, upload}
use cincan_command.Tar.Upload.Members.{logs_of, upload-members}
use cincan_command.Log.Json.{TimeFormat, FileLog, CommandLog}
use cincan_command.Run.{
  Env, returns, fetched, try_run, after_exec, after_download, clean_up, Finished, download_names,
  finish, run,
}
use cincan_command.Run.Launch.{
  World, Created, no_shell, upload_raises, created, no_upload, log_of, start_container,
  create_container, resolver_of, launch, file_logs, host_names, run_created, run_tool,
}

module _ (T : TimeFormat) where
  finish_inv :
      (work_dir : PurePath) (names : List Text) (log : CommandLog T) (fin : Finished T)
      → finish T work_dir names log ≡ some fin
      → (fin.log ≡ log) × (fin.upload_files ≡ sort text_le names)
  unfolding finish
  finish_inv work_dir names log fin h =
      elim (Option-cases (download_names T work_dir log.out_files)) [
        | inl e ↦ let h' = rw e at h in cc h'
        | inr (found, e) ↦ let h' = rw e at h in (ground arith, ground arith)
      ]

  try_run-logged :
      (env : Env T) (in_files outs : List (FileLog T)) (log log' : CommandLog T)
      → env.exec log ≡ returns log'
      → log'.exit_code ≡ 0
      → env.download ≡ fetched outs
      → (try_run T env in_files log).0
        ≡ some (record log' {
          in_files = log'.in_files ++ in_files;
          out_files = log'.out_files ++ outs;
        })
  unfolding try_run after_exec after_download
  try_run-logged env in_files outs log log' e z d =
      let b : (log'.exit_code == 0) ≡ true = ground arith in rw (e, b, d) refl

  -- The log of a run that returns is the one that the tried part ends with.
  pub run_inv :
      (env : Env T) (work_dir : PurePath) (names : List Text) (in_files : List (FileLog T))
      (log : CommandLog T) (fin : Finished T)
      → (run T env work_dir names in_files log).0 ≡ some fin
      → ((try_run T env in_files log).0 ≡ some fin.log) × (fin.upload_files ≡ sort text_le names)
  unfolding run
  run_inv env work_dir names in_files log fin h = elim (Bool-cases (clean_up T env).0) [
    | inr k ↦ let h' = rw k at h in cc h'
    | inl k ↦ elim (Option-cases (try_run T env in_files log).0) [
      | inl n ↦ let h' = rw (k, n) at h in cc h'
      | inr (l, n) ↦
          let h' = rw (k, n) at h in
          let (same, sorted) = finish_inv work_dir names l fin h' in
          (n ∙ ap (λ (v : CommandLog T). some v) (sym same), sorted)
    ]
  ]

  -- An execution that ends with 0 and a download that returns give this log.
  run-logged :
      (env : Env T) (work_dir : PurePath) (names : List Text) (in_files outs : List (FileLog T))
      (log log' : CommandLog T) (fin : Finished T)
      → env.exec log ≡ returns log'
      → log'.exit_code ≡ 0
      → env.download ≡ fetched outs
      → (run T env work_dir names in_files log).0 ≡ some fin
      → (fin.log.command ≡ log'.command)
        × (fin.log.in_files ≡ log'.in_files ++ in_files)
        × (fin.log.out_files ≡ log'.out_files ++ outs)
        × (fin.upload_files ≡ sort text_le names)
  run-logged env work_dir names in_files outs log log' fin e z d h =
      let (ended, sorted) = run_inv env work_dir names in_files log fin h in
      let logged = try_run-logged env in_files outs log log' e z d in
      (
        ground (arith, ended, logged),
        ground (arith, ended, logged),
        ground (arith, ended, logged),
        sorted,
      )

  module _ (w : World T) where
    -- A run that returns has got a container with its files.
    run_created_inv :
        (env : Env T) (work_dir : PurePath) (files : List (PurePath × Text)) (c : Created T)
        (fin : Finished T)
        → (run_created T w env work_dir files c).0 ≡ some fin
        → (entry : List Text) × (user_cmd : List Text) × (log : CommandLog T) × (u : Upload)
          × (content : Option Content) × (c ≡ created entry user_cmd log u content)
          × ((run T env work_dir (host_names T w files) (file_logs T w u.in_files) log).0
              ≡ some fin)
    unfolding run_created
    run_created_inv env work_dir files no_shell fin h = cc h
    run_created_inv env work_dir files upload_raises fin h = cc h
    run_created_inv env work_dir files (created entry user_cmd log u content) fin h =
        (entry, user_cmd, log, u, content, refl, h)

    pub run_tool_inv :
        (env : Env T) (work_dir : PurePath) (t : Tool) (args : List Text) (fin : Finished T)
        → (run_tool T w env work_dir t args).0 ≡ some fin
        → (files : List (PurePath × Text)) × (entry : List Text) × (user_cmd : List Text)
          × (log : CommandLog T) × (u : Upload) × (content : Option Content) × (launch T w t args
              ≡ some (files, created entry user_cmd log u content))
          × ((run T env work_dir (host_names T w files) (file_logs T w u.in_files) log).0
              ≡ some fin)
    unfolding run_tool
    run_tool_inv env work_dir t args fin h = elim (Option-cases (launch T w t args)) [
      | inl k ↦ let h' = rw (k, run_tool) at h in cc h'
      | inr ((files, c), k) ↦
          let h' = rw (k, run_tool) at h in
          let (entry, user_cmd, log, u, content, same, ran) =
            run_created_inv env work_dir files c fin h' in
          (files, entry, user_cmd, log, u, content, k ∙ ap (λ c'. some (files, c')) same, ran)
    ]

  module _ (w : World T) (t : Tool) (given : t.input_tar ≡ none) where
    upload-in_files :
        (files : List (PurePath × Text)) (u u' : Upload) (content : Option Content)
        → upload w.digest w.host.resolve w.now w.contents files none u ≡ some (u', content)
        → u'.in_files ≡ u.in_files ++ logs_of w.digest w.host.resolve w.now w.contents files
    unfolding upload
    upload-in_files [] u u' content h =
        let same : u ≡ u' = ground arith in rw (← same) (sym (append-nil u.in_files))
    upload-in_files (f ∷ files) u u' content h =
        (upload-members w.digest w.host.resolve w.now w.contents f files u u' content h).2

    start_container-logged :
        (files : List (PurePath × Text)) (s : Start) (entry user_cmd : List Text)
        (log : CommandLog T) (u : Upload) (content : Option Content)
        → start_container T w t files s ≡ created entry user_cmd log u content
        → (log ≡ log_of T w t user_cmd)
          × (u.in_files ≡ logs_of w.digest w.host.resolve w.now w.contents files)
    unfolding start_container
    start_container-logged files exits entry user_cmd log u content h = cc h
    start_container-logged files (container entry' user_cmd') entry user_cmd log u content h =
        let h' = rw given at h in
        elim (Option-cases
          (upload w.digest w.host.resolve w.now w.contents files none (no_upload T))) [
            | inl e ↦ let h'' = rw e at h' in cc h''
            | inr ((u', content'), e) ↦
                let h'' = rw e at h' in
                let same : u' ≡ u = ground arith in
                (ground arith, rw (← same) (upload-in_files files (no_upload T) u' content' e))
          ]

    launch_inv :
        (args : List Text) (files : List (PurePath × Text)) (c : Created T)
        → launch T w t args ≡ some (files, c)
        → (r : Resolver) × (create_container T w t files r.command_args ≡ c)
    unfolding launch
    launch_inv args files c h = elim (Option-cases (resolver_of T w t args)) [
      | inl e ↦ let h' = rw e at h in cc h'
      | inr (r, e) ↦
          elim (Option-cases (resolve_upload_files w.host (parse_all t.output_dirs) r.host_files)) [
            | inl e' ↦ let h' = rw (e, e') at h in cc h'
            | inr (files', e') ↦
                let h' = rw (e, e') at h in
                let same : files' ≡ files = ground arith in
                let made : create_container T w t files' r.command_args ≡ c = ground arith in
                (r, rw same at made)
          ]
    ]

    created-logged :
        (files : List (PurePath × Text)) (command entry user_cmd : List Text) (log : CommandLog T)
        (u : Upload) (content : Option Content)
        → create_container T w t files command ≡ created entry user_cmd log u content
        → (log ≡ log_of T w t user_cmd)
          × (u.in_files ≡ logs_of w.digest w.host.resolve w.now w.contents files)
    unfolding create_container
    created-logged files command entry user_cmd log u content h =
        start_container-logged files _ entry user_cmd log u content h

    -- If a tool's run returns, for which no archive is given, whose execution ends with 0 and whose
    -- download returns: the log begins with what the execution has put into it, then its inputs are
    -- exactly the regular files that have been uploaded, with the digest of their content and their
    -- own time, and its outputs those of the download. The names of the uploaded files are told in
    -- their order.
    pub run_tool-logged :
        (env : Env T) (work_dir : PurePath) (args : List Text) (outs : List (FileLog T))
        (exec_log : CommandLog T → CommandLog T) (fin : Finished T)
        → ((log : CommandLog T) → env.exec log ≡ returns (exec_log log))
        → ((log : CommandLog T) → (exec_log log).exit_code ≡ 0)
        → env.download ≡ fetched outs
        → (run_tool T w env work_dir t args).0 ≡ some fin
        → (files : List (PurePath × Text)) × (entry : List Text) × (user_cmd : List Text)
          × (u : Upload) × (content : Option Content) × (launch T w t args
              ≡ some (files, created entry user_cmd (log_of T w t user_cmd) u content))
          × (let log = exec_log (log_of T w t user_cmd) in
              (fin.log.command ≡ log.command)
              × (fin.log.in_files
                  ≡ log.in_files
                    ++ file_logs T w (logs_of w.digest w.host.resolve w.now w.contents files))
              × (fin.log.out_files ≡ log.out_files ++ outs)
              × (fin.upload_files ≡ sort text_le (host_names T w files)))
    run_tool-logged env work_dir args outs exec_log fin e z d h =
        let (files, entry, user_cmd, log, u, content, k, ran) =
          run_tool_inv w env work_dir t args fin h in
        let (r, made) = launch_inv args files _ k in
        let (l, ins) = created-logged files r.command_args entry user_cmd log u content made in
        let logged =
          run-logged env work_dir (host_names T w files) (file_logs T w u.in_files) outs log
            (exec_log log) fin (e log) (z log) d ran in
        (files, entry, user_cmd, u, content, rw (← l) k, rw (← l, ← ins) logged)
