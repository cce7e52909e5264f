-- ===== src/Log/Json/RoundTrip.antt =====
-- Reading back what `to_json` of cincan/command_log.py gives.
use cincan_command.Prelude.{
  Text, Option, none, some, List, [], ◌∷◌, nat_eq, list_eq, ◌≡◌, refl, ap, All,
}
use cincan_command.Path.{PurePath, parse, as_posix}
use cincan_command.Path.RoundTrip.{IsPath, parse-as_posix}
use cincan_command.Log.Json.{
  TimeFormat, FileLog, CommandLog, file_to_json, files_to_json, args_to_json, log_to_json,
  file_from_json, files_from_json, log_from_json, args_from_json,
}

module _ (T : TimeFormat) where
  open T use {Time, strftime, strptime, strptime-strftime}

  -- The path of an entry is one that a text can stand for.
  abbrev pub HasPath : FileLog T → Type 0
  HasPath f = IsPath f.path

  abbrev stored : PurePath → Text → Option Time → FileLog T
  stored p d t = record { path = p; digest = d; timestamp = t }

  file_fields :
      (p : PurePath) (d : Text) (t : Option Time)
      → let f : FileLog T = record { path = p; digest = d; timestamp = t } in
        parse (as_posix p) ≡ p → file_from_json T (file_to_json T f) ≡ some f
  unfolding file_from_json file_to_json nat_eq list_eq
  file_fields p [] none h = ap (λ (q : PurePath). some (stored q [] none)) h
  file_fields p [] (some t) h =
      rw (strptime-strftime t) (ap (λ (q : PurePath). some (stored q [] (some t))) h)
  file_fields p (c ∷ d) none h = ap (λ (q : PurePath). some (stored q (c ∷ d) none)) h
  file_fields p (c ∷ d) (some t) h =
      rw (strptime-strftime t) (ap (λ (q : PurePath). some (stored q (c ∷ d) (some t))) h)

  -- The entry of a file, also one without a digest or a timestamp, is read back as it was.
  pub file_from_json-file_to_json :
      (f : FileLog T) → HasPath f → file_from_json T (file_to_json T f) ≡ some f
  file_from_json-file_to_json f h =
      file_fields f.path f.digest f.timestamp (parse-as_posix f.path h)

  files_from_json-files_to_json :
      (fs : List (FileLog T)) → All HasPath fs → files_from_json T (files_to_json T fs) ≡ some fs
  unfolding files_from_json files_to_json
  files_from_json-files_to_json [] h = refl
  files_from_json-files_to_json (f ∷ fs) h =
      rw (file_from_json-file_to_json f h.0, files_from_json-files_to_json fs h.1)

  args_from_json-args_to_json :
      (args : List Text) → args_from_json T (args_to_json T args) ≡ some args
  unfolding args_from_json args_to_json
  args_from_json-args_to_json [] = refl
  args_from_json-args_to_json (a ∷ args) = rw (args_from_json-args_to_json args)

  -- What `from_json` gives back of an entry that was written: the exit code and the streams are
  -- those of a new entry.
  abbrev pub restored : CommandLog T → CommandLog T
  restored l = record l { exit_code = 0; stdin = []; stdout = []; stderr = [] }

  log_fields :
      (l : CommandLog T) (i o : List (FileLog T))
      → All HasPath i
      → All HasPath o
      → log_from_json T (log_to_json T (record l { in_files = i; out_files = o }))
        ≡ some (restored (record l { in_files = i; out_files = o }))
  unfolding log_from_json log_to_json nat_eq list_eq
  log_fields l [] [] hi ho =
      rw (args_from_json-args_to_json l.command, strptime-strftime l.timestamp)
  log_fields l [] (f ∷ o) hi ho = rw (
    args_from_json-args_to_json l.command,
    strptime-strftime l.timestamp,
    files_from_json-files_to_json (f ∷ o) ho,
  )
  log_fields l (f ∷ i) [] hi ho = rw (
    args_from_json-args_to_json l.command,
    strptime-strftime l.timestamp,
    files_from_json-files_to_json (f ∷ i) hi,
  )
  log_fields l (f ∷ i) (g ∷ o) hi ho = rw (
    args_from_json-args_to_json l.command,
    strptime-strftime l.timestamp,
    files_from_json-files_to_json (f ∷ i) hi,
    files_from_json-files_to_json (g ∷ o) ho,
  )

  -- A written entry is read back but for its exit code and its streams, if the paths of its files
  -- are ones that their texts tell.
  pub log_from_json-log_to_json :
      (l : CommandLog T)
      → All HasPath l.in_files
      → All HasPath l.out_files
      → log_from_json T (log_to_json T l) ≡ some (restored l)
  log_from_json-log_to_json l hi ho = log_fields l l.in_files l.out_files hi ho
