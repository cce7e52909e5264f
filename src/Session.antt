-- ===== src/Session.antt =====
-- The loop of `__container_exec` of cincan/frontend.py: what becomes of the input and of the frames
-- that the container sends, and what is recorded when it has ended.
pub mod Laws
pub mod Exec
use cincan_command.Prelude.{
  ℕ, zero, suc, ◌+◌, Text, codes, length, Bool, true, false, not, ◌&&◌, Option, none, some, List,
  [], ◌∷◌, ◌++◌, ◌==◌, nat_eq, list_eq, if◌then◌else◌, ltb,
}

-- `ToolStream`: `hashed` is what `hash.update` has been given, and `written` what the stream got.
pub record ToolStream : Type 0 where
  pub data_length : ℕ
  pub hashed : List ℕ
  pub raw : List ℕ
  pub written : List ℕ

abbrev pub new_stream : ToolStream
new_stream = record { data_length = 0; hashed = []; raw = []; written = [] }

-- `ToolStream.update`
unfoldable pub update : List ℕ → ToolStream → ToolStream
update bytes s = record s { data_length = s.data_length + length bytes; hashed = s.hashed ++ bytes }

pub record Session : Type 0 where
  pub stdin_s : Option ToolStream
  pub stdout_s : Option ToolStream
  pub stderr_s : ToolStream
  -- what has been sent to the container
  pub sent : List ℕ
  -- whether `sys.stdin` is among the active streams
  pub stdin_active : Bool
  pub socket_open : Bool

-- What `select` finds: a frame of the container, and bytes of the input, of which none are its
-- end. The socket stands first among the active streams.
abbrev pub Ready : Type 0
Ready = Option (ℕ × List ℕ) × Option (List ℕ)

-- The streams at the start of `__container_exec`
unfoldable pub start : Bool → Bool → Session
start read_stdin write_stdout = record {
  stdin_s = if read_stdin then some new_stream else none;
  stdout_s = if write_stdout then some new_stream else none;
  stderr_s = new_stream;
  sent = [];
  stdin_active = read_stdin;
  socket_open = true;
}

-- The bytes of a frame for a stream that is there
unfoldable pub collect : Bool → List ℕ → ToolStream → ToolStream
unfolding update
collect buffer_output bytes s =
    let s' = update bytes s in
    if buffer_output
    then record s' { raw = s'.raw ++ bytes }
    else record s' { written = s'.written ++ bytes }

on_input : List ℕ → Session → Session
on_input [] t = record t { stdin_active = false }
on_input (b ∷ bytes) t = record t {
  stdin_s = elim t.stdin_s [ none ↦ none | some s ↦ some (update (b ∷ bytes) s) ];
  sent = t.sent ++ b ∷ bytes;
}

on_frame : Bool → ℕ → List ℕ → Session → Session
on_frame buffer_output s_type [] t = record t { socket_open = false }
on_frame buffer_output s_type (b ∷ bytes) t =
    if s_type == 1
    then record t {
      stdout_s = elim t.stdout_s [
        | none ↦ none
        | some s ↦ some (collect buffer_output (b ∷ bytes) s)
      ];
    }
    else if s_type == 2
    then record t { stderr_s = collect buffer_output (b ∷ bytes) t.stderr_s }
    else t

take_frame : Bool → Option (ℕ × List ℕ) → Session → Session
take_frame buffer_output none t = t
take_frame buffer_output (some (s_type, bytes)) t = on_frame buffer_output s_type bytes t

take_input : Option (List ℕ) → Session → Session
take_input none t = t
take_input (some bytes) t = if t.stdin_active then on_input bytes t else t

-- The streams that one call of `select` has found ready
unfoldable pub step : Bool → Ready → Session → Session
unfolding on_input on_frame collect take_frame take_input
step buffer_output (ready_frame, ready_input) t =
    take_input ready_input (take_frame buffer_output ready_frame t)

-- `while c_socket_open`, over what the calls of `select` find
unfoldable pub run : Bool → List Ready → Session → Session
unfolding step
run buffer_output [] t = t
run buffer_output (r ∷ rs) t =
    let rest = run buffer_output rs (step buffer_output r t) in if t.socket_open then rest else t

-- The device file and the bytes of a stream whose hash is recorded
abbrev pub Entry : Type 0
Entry = Text × List ℕ

unfoldable pub entry_of : Text → Option ToolStream → List Entry
entry_of path none = []
entry_of path (some s) = if s.data_length == 0 then [] else (path, s.hashed) ∷ []

-- The entries of `log.in_files` and `log.out_files`, which only a run that exits with 0 gets.
unfoldable pub recorded : ℕ → Session → List Entry × List Entry
unfolding entry_of
recorded exit_code t =
    if exit_code == 0
    then (
      entry_of (codes "/dev/stdin") t.stdin_s,
      entry_of (codes "/dev/stdout") t.stdout_s ++ entry_of (codes "/dev/stderr") (some t.stderr_s),
    )
    else ([], [])
