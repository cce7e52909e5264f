-- ===== src/Run/Launch/Laws.antt =====
-- What `__run` of cincan/frontend.py does in front of the execution, whatever the command line.
use cincan_command.Prelude.{
  Text, codes, starts_with, All, All-map, Distinct, false, Option, none, some, List, [], ◌∷◌, ◌≡◌,
  refl,
}
use cincan_command.Path.{PurePath, path_eq}
use cincan_command.Tar.Filter.{parents_of}
use cincan_command.Main.{Tool, or_empty}
use cincan_command.Frontend.{container, start_command}
use cincan_command.Resolver.{Resolver, parse_all}
use cincan_command.Resolver.Listed.{IsProper, InOrder, file_resolver-InOrder}
use cincan_command.Resolver.Upload.Names.{IsSound, NoSlash, resolve_upload_files-NoSlash}
use cincan_command.Tar.Upload.{Content, Upload, made, upload}
use cincan_command.Tar.Upload.Laws.{Has, Known, upload-Has}
use cincan_command.Log.Json.{TimeFormat}
use cincan_command.Run.Launch.{
  World, do_resolve, or_no_filters, created, no_upload, log_of, create_container, resolver_of,
  launch,
}

-- What has been put into the container: an archive of the entries, if there are files
abbrev pub put_of : List (PurePath × Text) → Upload → Option Content
put_of [] u = none
put_of (f ∷ files) u = some (made u.entries)

module _ (T : TimeFormat) (w : World T) (known : (p : PurePath) → Known (w.contents p)) where
  -- What `upload` gives for the files of a command line
  upload_lem :
      (files : List (PurePath × Text)) (u : Upload)
      → All (λ f. starts_with f.1 (codes "/") ≡ false) files
      → (u' : Upload) × (upload w.digest w.host.resolve w.now w.contents files none u
          ≡ some (u', put_of files u'))
        × All (λ f. Has u' (parents_of f.1)) files
  unfolding upload
  upload_lem [] u n = (u, refl, tt)
  upload_lem (f ∷ files) u n =
      let (u', e, h) =
        upload-Has w.digest w.host.resolve w.now w.contents f files u
          (All-map _ _ (λ g k. (k, known g.0)) (f ∷ files) n) in
      (u', e, h)

  -- Whatever the command line, if its arguments can be split, no archive is given, no output
  -- directory is given twice, and an entry point and a command are found out: a container with these
  -- is created, and if there are files, an archive is put into it that has all directories that lead
  -- to each of the files for themselves; no file has a name that begins with a slash. The host has the working
  -- directory and the root and nothing but files and directories, its names and resolved paths are
  -- proper and the latter absolute.
  pub launch-created :
      (t : Tool) (args : List Text) (r : Resolver) (entry_point user_cmd : List Text)
      → IsProper w.host
      → (sound : IsSound w.host) → Distinct (parse_all t.output_dirs)
      → t.input_tar ≡ none
      → resolver_of T w t args ≡ some r
      → start_command w.has
          (or_empty t.shell)
          w.default_shells
          (or_empty t.entrypoint)
          w.config
          r.command_args
        ≡ container entry_point user_cmd
      → (files : List (PurePath × Text)) × (u : Upload) × (launch T w t args
          ≡ some (files, created entry_point user_cmd (log_of T w t user_cmd) u (put_of files u)))
        × NoSlash w.host sound files
        × All (λ f. Has u (parents_of f.1)) files
  unfolding launch create_container
  launch-created t args r entry_point user_cmd good sound d i e s =
      let o : InOrder r.host_files =
        file_resolver-InOrder w.host args t.output_dirs (do_resolve t.input_tar)
          (or_no_filters t.input_filters) r good d e in
      let (files, e', n) =
        resolve_upload_files-NoSlash w.host sound (parse_all t.output_dirs) r.host_files o.1 in
      let (u, e'', h) = upload_lem files (no_upload T) n in
      (files, u, rw (e, e', s, i, e'') refl, n, h)
