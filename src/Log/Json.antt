-- ===== src/Log/Json.antt =====
-- The values of the module `json`, and the `to_json` and `from_json` of cincan/command_log.py.
pub mod RoundTrip
use cincan_command.Prelude.{
  ℕ, Text, codes, Bool, true, false, Option, none, some, List, [], ◌∷◌, ◌++◌, ◌==◌, nat_eq, list_eq,
  if◌then◌else◌, ◌≡◌, contains, any,
}
use cincan_command.Path.{PurePath, parse, as_posix}
use mathlib.Core.Option

mutual
  pub data Json : Type 0 where
    str : Text → Json
    num : ℕ → Json
    bool : Bool → Json
    null : Json
    arr : Items → Json
    obj : Fields → Json

  pub data Items : Type 0 where
    nil : Items
    cons : Json → Items → Items

  pub data Fields : Type 0 where
    end : Fields
    field : Text → Json → Fields → Fields

-- `js.get(key)`
unfoldable pub get : Text → Fields → Option Json
get key end = none
get key (field k v rest) = let later = get key rest in if k == key then some v else later

-- `datetime` with the format of the log: what is printed can be read back.
pub record TimeFormat : Type 1 where
  pub Time : Type 0
  pub le : Time → Time → Bool
  pub strftime : Time → Text
  pub strptime : Text → Option Time
  pub strptime-strftime : (t : Time) → strptime (strftime t) ≡ some t

-- `any(c in string.whitespace for c in arg)`
has_whitespace : Text → Bool
has_whitespace = any (contains (32 ∷ 9 ∷ 10 ∷ 13 ∷ 11 ∷ 12 ∷ []))

-- `quote_args`
unfoldable pub quote_args : List Text → List Text
unfolding has_whitespace
quote_args [] = []
quote_args (arg ∷ rest) =
    (if has_whitespace arg then codes "\"" ++ (arg ++ codes "\"") else arg) ∷ quote_args rest

module _ (T : TimeFormat) where
  open T use {Time, strftime, strptime}

  pub record FileLog : Type 0 where
    pub path : PurePath
    pub digest : Text
    pub timestamp : Option Time

  pub record CommandLog : Type 0 where
    pub command : List Text
    pub timestamp : Time
    pub exit_code : ℕ
    pub stdin : List ℕ
    pub stdout : List ℕ
    pub stderr : List ℕ
    pub in_files : List FileLog
    pub out_files : List FileLog

  -- `CommandLog(command, timestamp)`
  abbrev pub new_log : List Text → Time → CommandLog
  new_log command timestamp = record {
    command = command;
    timestamp = timestamp;
    exit_code = 0;
    stdin = [];
    stdout = [];
    stderr = [];
    in_files = [];
    out_files = [];
  }

  time_field : Option Time → Fields
  time_field none = end
  time_field (some t) = field (codes "timestamp") (str (strftime t)) end

  -- `FileLog.to_json`
  unfoldable pub file_to_json : FileLog → Json
  unfolding time_field
  file_to_json f =
      let stamp = time_field f.timestamp in
      obj (
        field (codes "path") (str (as_posix f.path))
          (if f.digest == [] then stamp else field (codes "sha256") (str f.digest) stamp))

  unfoldable pub files_to_json : List FileLog → Items
  unfolding file_to_json
  files_to_json [] = nil
  files_to_json (f ∷ rest) = cons (file_to_json f) (files_to_json rest)

  unfoldable pub args_to_json : List Text → Items
  args_to_json [] = nil
  args_to_json (a ∷ rest) = cons (str a) (args_to_json rest)

  -- `if len(files) > 0: js[key] = …`
  list_field : Text → List FileLog → Fields → Fields
  list_field key [] rest = rest
  list_field key (f ∷ fs) rest = field key (arr (files_to_json (f ∷ fs))) rest

  -- `CommandLog.to_json`
  unfoldable pub log_to_json : CommandLog → Json
  unfolding list_field files_to_json args_to_json
  log_to_json l = obj (
      field (codes "command") (arr (args_to_json l.command)) (
        field (codes "timestamp") (str (strftime l.timestamp)) (
          field (codes "exit_code") (num l.exit_code)
            (list_field (codes "input") l.in_files (list_field (codes "output") l.out_files end)))))

  as_text : Option Json → Option Text
  as_text (some (str s)) = some s
  as_text _ = none

  digest_of : Option Json → Option Text
  digest_of none = some []
  digest_of (some j) = as_text (some j)

  read_time : Option Json → Option (Option Time)
  read_time none = some none
  read_time (some (str s)) = Option.map some (strptime s)
  read_time (some _) = none

  build_file : Option Text → Option Text → Option (Option Time) → Option FileLog
  build_file (some p) (some d) (some t) =
      some (record { path = parse p; digest = d; timestamp = t })
  build_file _ _ _ = none

  -- `FileLog.from_json`. `none` stands for its exceptions, on a missing key or a bad value.
  unfoldable pub file_from_json : Json → Option FileLog
  unfolding as_text digest_of read_time build_file get
  file_from_json (obj js) =
      build_file (as_text (get (codes "path") js)) (digest_of (get (codes "sha256") js))
        (read_time (get (codes "timestamp") js))
  file_from_json _ = none

  both : Option FileLog → Option (List FileLog) → Option (List FileLog)
  both (some f) (some fs) = some (f ∷ fs)
  both _ _ = none

  unfoldable pub files_from_json : Items → Option (List FileLog)
  unfolding both
  files_from_json nil = some []
  files_from_json (cons j rest) = both (file_from_json j) (files_from_json rest)

  args_from_json : Items → Option (List Text)
  args_from_json nil = some []
  args_from_json (cons (str a) rest) = Option.map (λ as'. a ∷ as') (args_from_json rest)
  args_from_json (cons _ rest) = none

  as_args : Option Json → Option (List Text)
  as_args (some (arr items)) = args_from_json items
  as_args _ = none

  as_files : Option Json → Option (List FileLog)
  as_files none = some []
  as_files (some (arr items)) = files_from_json items
  as_files (some _) = none

  as_time : Option Json → Option Time
  as_time (some (str s)) = strptime s
  as_time _ = none

  build_log :
      Option (List Text)
      → Option Time
      → Option (List FileLog)
      → Option (List FileLog)
      → Option CommandLog
  build_log (some c) (some t) (some i) (some o) =
      some (record (new_log c t) { in_files = i; out_files = o })
  build_log _ _ _ _ = none

  -- `CommandLog.from_json`
  unfoldable pub log_from_json : Json → Option CommandLog
  unfolding as_args as_files as_time build_log args_from_json get
  log_from_json (obj js) =
      build_log (as_args (get (codes "command") js)) (as_time (get (codes "timestamp") js))
        (as_files (get (codes "input") js)) (as_files (get (codes "output") js))
  log_from_json _ = none
