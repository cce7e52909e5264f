-- ===== src/Run/Launch/Fresh.antt =====
-- The log with which a container of `__create_container` of cincan/frontend.py begins.
use cincan_command.Prelude.{
  Text, Option, Option-cases, none, some, List, ◌≡◌, refl, inl, inr, arith,
}
use cincan_command.Path.{PurePath}
use cincan_command.Main.{Tool}
use cincan_command.Frontend.{Start, container, exits}
use cincan_command.Log.Json.{TimeFormat, CommandLog}
use cincan_command.Tar.Upload.{Content, Upload}
use cincan_command.Session.Exec.Streamed.{IsFresh}
use cincan_command.Resolver.Upload.{resolve_upload_files}
use cincan_command.Resolver.{parse_all}
use cincan_command.Run.Launch.{
  World, created, uploaded, log_of, start_container, create_container, resolver_of, launch,
}

module _ (T : TimeFormat) (w : World T) (t : Tool) where
  uploaded-IsFresh :
      (entry entry' user_cmd user_cmd' : List Text) (log : CommandLog T) (u : Upload)
      (content : Option Content) (o : Option (Upload × Option Content))
      → uploaded T entry' user_cmd' (log_of T w t user_cmd') o
        ≡ created entry user_cmd log u content
      → IsFresh T log
  unfolding log_of
  uploaded-IsFresh entry entry' user_cmd user_cmd' log u content none h = cc h
  uploaded-IsFresh entry entry' user_cmd user_cmd' log u content (some (u', c)) h =
      let same : log_of T w t user_cmd' ≡ log = ground arith in rw (← same) (refl, refl, refl)

  created-IsFresh :
      (files : List (PurePath × Text)) (s : Start) (entry user_cmd : List Text) (log : CommandLog T)
      (u : Upload) (content : Option Content)
      → start_container T w t files s ≡ created entry user_cmd log u content
      → IsFresh T log
  unfolding start_container
  created-IsFresh files exits entry user_cmd log u content h = cc h
  created-IsFresh files (container entry' user_cmd') entry user_cmd log u content h =
      uploaded-IsFresh entry entry' user_cmd user_cmd' log u content _ h

  -- The log of a new container has no entry of an end.
  pub launch-IsFresh :
      (args : List Text) (files : List (PurePath × Text)) (entry user_cmd : List Text)
      (log : CommandLog T) (u : Upload) (content : Option Content)
      → launch T w t args ≡ some (files, created entry user_cmd log u content)
      → IsFresh T log
  unfolding launch create_container
  launch-IsFresh args files entry user_cmd log u content h =
      elim (Option-cases (resolver_of T w t args)) [
        | inl e ↦ let h' = rw e at h in cc h'
        | inr (r, e) ↦
            elim (Option-cases
              (resolve_upload_files w.host (parse_all t.output_dirs) r.host_files)) [
                | inl e' ↦ let h' = rw (e, e') at h in cc h'
                | inr (files', e') ↦
                    let h' = rw (e, e') at h in
                    let made : create_container T w t files' r.command_args
                        ≡ created entry user_cmd log u content =
                      ground arith in
                    created-IsFresh files' _ entry user_cmd log u content made
              ]
      ]
