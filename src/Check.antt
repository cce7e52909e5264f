-- ===== src/Check.antt =====
-- `ContainerCheck.run` of cincan/container_check.py, over the part of the working directory that it
-- touches.
use cincan_command.Prelude.{
  ℕ, decimal, Text, codes, Bool, false, not, Option, none, some, List, [], ◌∷◌, ◌++◌, ◌==◌, nat_eq,
  list_eq, if◌then◌else◌, ◌≡◌, ◌≢◌, ◌↔◌, refl, arith,
}

-- One of the directories cincan-in and cincan-out: whether there are other files in it, and the
-- content of its cincan.txt. `rmdir` fails where there are other files.
pub record Folder : Type 0 where
  pub others : Bool
  pub text : Option Text

-- No folder is a directory that does not exist.
pub record Place : Type 0 where
  pub in_folder : Option Folder
  pub out_folder : Option Folder

pub record Log : Type 0 where
  pub exit_code : ℕ
  pub stdout : List ℕ
  pub stderr : List ℕ

-- The tool's run, which may also raise, and leaves the directory in some state.
abbrev pub Tool : Type 0
Tool = List Text → Place → Option Log × Place

abbrev pub test_string : Text
test_string = codes "This is a test"

-- `mkdir(exist_ok=True)`, and the text of the file written or taken away
abbrev put_text : Option Text → Option Folder → Option Folder
put_text t none = some (record { others = false; text = t })
put_text t (some f) = some (record f { text = t })

-- Before the run: the input is there, and no output is left over.
unfoldable pub prepare : Place → Place
prepare p = record {
  in_folder = put_text (some test_string) p.in_folder;
  out_folder = put_text none p.out_folder;
}

-- A part of the `finally` block: the file and its directory go. `none` is the error of `rmdir`.
unfoldable pub clear : Option Folder → Option (Option Folder)
clear none = some none
clear (some f) = if f.others then none else some none

abbrev text_of : Option Folder → Option Text
text_of none = none
text_of (some f) = f.text

abbrev pub default_args : List Text → List Text
default_args [] = codes "cp" ∷ codes "cincan-in/cincan.txt" ∷ codes "cincan-out/cincan.txt" ∷ []
default_args (a ∷ args) = a ∷ args

-- `error` after the run. An empty output counts as none.
unfoldable pub verdict : ℕ → Option Text → Option Text
unfolding decimal
verdict exit_code test_out =
    if not (exit_code == 0)
    then some (codes "Test failed, exit code " ++ (decimal exit_code ++ codes "\n"))
    else elim test_out [
      | none ↦ some (codes "Test failed, test file not copied\n")
      | some out ↦
          if out == []
          then some (codes "Test failed, test file not copied\n")
          else if out == test_string
          then none
          else some (codes "Test failed, test data not copied properly\n")
    ]

-- The report at the end. A failed test keeps the output only if there is an error output.
unfoldable pub report : Log → Option Text → Log
report log (some error) = record log {
  stdout = (if log.stderr == [] then [] else log.stdout ++ codes "\n") ++ error;
}
report log none = record log {
  stdout = (if log.stdout == [] then [] else log.stdout ++ codes "\n") ++ codes "Test pass\n";
}

pub data Result : Type 0 where
  returns : Log → Result
  -- the tool's exception, or an `OSError` of `rmdir`
  raises : Result

finish : Option Log → Option Text → Option (Option Folder) → Option (Option Folder) → Result
finish (some log) test_out (some _) (some _) = returns (report log (verdict log.exit_code test_out))
finish (some log) test_out (some _) none = raises
finish (some log) test_out none _ = raises
finish none test_out _ _ = raises

-- The directories at the end: the second is not reached if the first could not be removed.
left_over : Option Folder → Option Folder → Place
left_over i o = elim (clear i) [
  | none ↦ record { in_folder = put_text none i; out_folder = o }
  | some i' ↦ elim (clear o) [
    | none ↦ record { in_folder = i'; out_folder = put_text none o }
    | some o' ↦ record { in_folder = i'; out_folder = o' }
  ]
]

-- `run`
unfoldable pub run : Tool → List Text → Place → Result × Place
unfolding prepare clear verdict report finish left_over
run tool args p =
    let (log, q) = tool (default_args args) (prepare p) in
    (
      finish log (text_of q.out_folder) (clear q.in_folder) (clear q.out_folder),
      left_over q.in_folder q.out_folder,
    )

-- The test passes exactly if the tool exits with 0 and has copied the test string.
pub verdict-none :
    (exit_code : ℕ) (test_out : Option Text)
    → (verdict exit_code test_out ≡ none) ↔ ((exit_code ≡ 0) × (test_out ≡ some test_string))
unfolding verdict
verdict-none exit_code none = ground arith
verdict-none exit_code (some out) = ground arith

-- A folder without other files, as the check makes it
abbrev pub IsOwn : Option Folder → Type 0
IsOwn none = Unit
IsOwn (some f) = f.others ≡ false

cleared :
    (i o : Option Folder)
    → IsOwn i
    → IsOwn o
    → left_over i o ≡ record { in_folder = none; out_folder = none }
unfolding left_over clear
cleared none none hi ho = refl
cleared none (some o) hi ho = rw ho refl
cleared (some i) none hi ho = rw hi refl
cleared (some i) (some o) hi ho = rw (hi, ho) refl

-- If the tool leaves no other files in the two directories, both are gone after the check, whether
-- the tool raised or not.
pub run-left_over :
    (tool : Tool) (args : List Text) (p : Place)
    → IsOwn (tool (default_args args) (prepare p)).1.in_folder
    → IsOwn (tool (default_args args) (prepare p)).1.out_folder
    → (run tool args p).1 ≡ record { in_folder = none; out_folder = none }
unfolding run
run-left_over tool args p hi ho = cleared _ _ hi ho

-- The report of a run that failed without an error output is the same whatever it has put out.
pub report-failed :
    (log : Log) (stdout : List ℕ) (test_out : Option Text)
    → log.exit_code ≢ 0
    → log.stderr ≡ []
    → report (record log { stdout = stdout }) (verdict log.exit_code test_out)
      ≡ report log (verdict log.exit_code test_out)
unfolding report verdict
report-failed log stdout none failed silent = ground arith
report-failed log stdout (some out) failed silent = ground arith
