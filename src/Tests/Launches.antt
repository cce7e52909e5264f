-- ===== src/Tests/Launches.antt =====
-- From a command line to the files that a container gets.
use cincan_command.Prelude.{
  ◌+◌, ◌*◌, Text, codes, contains, All, Bool, true, false, not, Option, some, none, List, [], ◌∷◌,
  ◌≡◌, ◌||◌, refl, nat_eq, list_eq, bool_eq, arith, ◌==◌, if◌then◌else◌, sort, text_le,
}
use cincan_command.Path.{PurePath, path_eq, parse, as_posix}
use cincan_command.Path.RoundTrip.{IsPart}
use cincan_command.Tar.Filter.{parents_of}
use cincan_command.Tar.Upload.{Source, regular, Upload, upload, made, create_tar, Content}
use cincan_command.Tar.Upload.Laws.{Has, Known}
use cincan_command.Resolver.{
  Node, file, directory, end, entry, Host, is_some, nodes_of, include_sub_dirs, Resolver,
  file_resolver,
}
use cincan_command.Resolver.Listed.{IsProper, AllNames, HasNames, InOrder, file_resolver-InOrder}
use cincan_command.Shlex.{is_word}
use cincan_command.Path.Parts.{parse-IsPart}
use cincan_command.Resolver.Upload.{detect_upload_files}
use cincan_command.Resolver.Upload.Names.{IsSound, NoSlash, Proper, detect_upload_files_lem}
use cincan_command.Main.{Tool, from_image}
use cincan_command.Frontend.{container, start_command}
use cincan_command.Log.Json.{TimeFormat}
use cincan_command.Tar.Upload
use cincan_command.Run.Launch.{World, Created, created, log_of, launch}
use cincan_command.Run.Launch.Laws.{put_of, launch-created}

-- Times as their texts
abbrev pub texts : TimeFormat
texts = record {
  Time = Text;
  le = text_le;
  strftime = λ t. t;
  strptime = λ v. some v;
  strptime-strftime = λ t. refl;
}

abbrev map_names : List (PurePath × Text) → List Text
map_names [] = []
map_names ((f, name) ∷ rest) = name ∷ map_names rest

-- A host with a directory `d` of one file
abbrev node_if : Bool → Bool → Bool → Option Node
node_if is_d is_a is_top =
    if is_d
    then some (directory (entry (codes "a") file end))
    else if is_a
    then some file
    else if is_top
    then some (directory end)
    else none

abbrev host_nodes : PurePath → Option Node
host_nodes p = node_if (as_posix p == codes "d") (as_posix p == codes "d/a") (p.parts == [])

abbrev host : Host
host = record { look = host_nodes; resolve = λ p. record p { root = codes "/"; parts = [] } }

a-IsPart : IsPart (codes "a")
a-IsPart = record { ne_nil = λ e. ground arith; ne_dot = λ e. ground arith; free = ground arith }

node_if-AllNames : (d a t : Bool) → AllNames (nodes_of (node_if d a t))
unfolding AllNames HasNames
node_if-AllNames true a t = (a-IsPart, tt, tt)
node_if-AllNames false true t = tt
node_if-AllNames false false true = tt
node_if-AllNames false false false = tt

node_if-there : (d a t : Bool) → t ≡ true → is_some (node_if d a t) ≡ true
node_if-there true a t e = refl
node_if-there false true t e = refl
node_if-there false false t e = rw e refl

host-IsProper : IsProper host
host-IsProper = record {
  names =
      λ p. node_if-AllNames (as_posix p == codes "d") (as_posix p == codes "d/a") (p.parts == []);
  resolved_parts = λ p. tt;
}

host-IsSound : IsSound host
host-IsSound = record {
  resolved_root = λ p. refl;
  resolved_parts = λ p. tt;
  there = λ p e.
      node_if-there (as_posix p == codes "d") (as_posix p == codes "d/a") (p.parts == [])
        (ground arith);
}

abbrev resolver : Resolver
unfolding file_resolver
resolver = elim (file_resolver host (codes "d" ∷ codes "out/x" ∷ []) (codes "o" ∷ []) true []) [
  | none ↦ record { host_files = []; already_listed = []; command_args = [] }
  | some r ↦ r
]

resolver_runs :
    file_resolver host (codes "d" ∷ codes "out/x" ∷ []) (codes "o" ∷ []) true [] ≡ some resolver
unfolding nat_eq list_eq parse as_posix file_resolver is_word path_eq include_sub_dirs
resolver_runs = refl

resolver_test :
    resolver.host_files ≡ parse (codes "o") ∷ parse (codes "d") ∷ parse (codes "d/a") ∷ []
unfolding nat_eq list_eq parse as_posix file_resolver is_word path_eq include_sub_dirs
resolver_test = refl

file_resolver-InOrder_example : InOrder resolver.host_files
file_resolver-InOrder_example =
    file_resolver-InOrder host (codes "d" ∷ codes "out/x" ∷ []) (codes "o" ∷ []) true [] resolver
      host-IsProper (refl, tt) resolver_runs

abbrev listed : List PurePath
listed = parse (codes "o/x") ∷ parse (codes "d") ∷ []

listed-parts : All (λ f. All IsPart f.parts) listed
listed-parts = (parse-IsPart (codes "o/x"), (parse-IsPart (codes "d"), tt))

detect_upload_files_lem_example :
    (fs : List PurePath) × (detect_upload_files host [] listed ≡ some fs)
    × All (Proper host host-IsSound []) fs
    × All (λ f. (not (is_some (host.look f)) || contains fs f) ≡ true) listed
detect_upload_files_lem_example = detect_upload_files_lem host host-IsSound [] listed listed-parts

abbrev contents_if : Bool → Bool → Option Source
contents_if is_d is_a =
    if is_d then some (Upload.directory 0) else if is_a then some (regular (1 ∷ []) 5) else none

contents_if-Known : (d a : Bool) → Known (contents_if d a)
contents_if-Known true a = tt
contents_if-Known false true = tt
contents_if-Known false false = tt

abbrev pub world : World texts
world = record {
  docker_hub = false;
  full_prefix = codes "quay.io/cincan";
  host = host;
  contents = λ p. contents_if (as_posix p == codes "d") (as_posix p == codes "d/a");
  archive = λ v. [];
  has = λ v. v == codes "/bin/sh";
  default_shells = codes "/bin/bash" ∷ codes "/bin/sh" ∷ [];
  config = record { entrypoint = codes "/tool" ∷ []; cmd = codes "-h" ∷ [] };
  digest = λ c. c;
  now = λ i. 9000000 + i * 1000000;
  fromtimestamp = λ t. [];
}

abbrev pub tool : Tool
tool = record {
  name = codes "cincan/t";
  origin = from_image (codes "cincan/t") false;
  batch = false;
  input_tar = none;
  output_tar = none;
  output_dirs = codes "o" ∷ [];
  implicit_output = true;
  explicit_output = none;
  input_filters = none;
  output_filters = none;
  no_defaults = false;
  create_image = false;
  entrypoint = none;
  network_mode = none;
  user = none;
  cap_add = none;
  cap_drop = none;
  runtime = none;
  is_tty = false;
  read_stdin = false;
  shell = none;
}

args_test : resolver.command_args ≡ codes "d" ∷ codes "out/x" ∷ []
unfolding nat_eq list_eq parse as_posix file_resolver is_word path_eq include_sub_dirs
args_test = refl

started :
    start_command world.has [] world.default_shells [] world.config resolver.command_args
    ≡ container (codes "/tool" ∷ []) resolver.command_args
unfolding start_command nat_eq list_eq
started = rw args_test refl

launch-created_example :
    (files : List (PurePath × Text)) × (u : Upload) × (launch texts world tool
        (codes "d" ∷ codes "out/x" ∷ [])
      ≡ some (
        files,
        created
            (codes "/tool" ∷ [])
            resolver.command_args
            (log_of texts world tool resolver.command_args)
            u
            (put_of files u),
      ))
    × NoSlash host host-IsSound files
    × All (λ f. Has u (parents_of f.1)) files
launch-created_example =
    launch-created texts world
      (λ p. contents_if-Known (as_posix p == codes "d") (as_posix p == codes "d/a")) tool
      (codes "d" ∷ codes "out/x" ∷ []) resolver (codes "/tool" ∷ []) resolver.command_args
      host-IsProper host-IsSound (refl, tt) refl resolver_runs started

-- The log's command and the names of the files
abbrev told : Option (List (PurePath × Text) × Created texts) → List Text × List Text
told (some (files, created entry_point user_cmd log u content)) = (log.command, map_names files)
told _ = ([], [])

launch_test : told (launch texts world tool (codes "d" ∷ codes "out/x" ∷ [])) ≡ (
  codes "quay.io/cincan/t" ∷ codes "d" ∷ codes "out/x" ∷ [],
  codes "d" ∷ codes "d/a" ∷ codes "o" ∷ [],
)
unfolding nat_eq list_eq parse as_posix is_word path_eq include_sub_dirs launch log_of text_le sort
launch_test = refl
