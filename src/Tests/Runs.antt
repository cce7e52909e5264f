-- ===== src/Tests/Runs.antt =====
-- Frames and sessions.
use cincan_command.Prelude.{
  Text, codes, true, false, some, none, List, [], ◌∷◌, ◌≡◌, refl, nat_eq, list_eq, arith, text_le,
}
use cincan_command.Stream.{Socket, Bytes, frame, unpack_container_stream}
use cincan_command.Stream.Frames.{
  content, NoEmpty, frame_bytes, unpack_container_stream-frame_bytes,
}
use cincan_command.Session.{ToolStream, Ready, start, run}
use cincan_command.Session.Exec.{Settings, container_exec, output_string, device_logs}
use cincan_command.Session.Exec
use cincan_command.Session.Exec.Laws.{Ended, container_exec_lem}
use cincan_command.Session.Laws.{Got, run_lem}
use cincan_command.Log.Json.{TimeFormat, CommandLog, new_log}

abbrev payload : Bytes
payload = 104 ∷ 105 ∷ []

-- The frame's header comes in two pieces, and its payload with the next frame's first byte.
abbrev socket : Socket
socket = (1 ∷ 0 ∷ 0 ∷ []) ∷ (0 ∷ 0 ∷ 0 ∷ 0 ∷ 2 ∷ 104 ∷ []) ∷ (105 ∷ 2 ∷ []) ∷ []

unpack_container_stream-frame_bytes_example :
    (s' : Socket) × (unpack_container_stream false socket ≡ frame 1 payload s')
    × (content s' ≡ 2 ∷ [])
    × NoEmpty s'
unfolding frame_bytes
unpack_container_stream-frame_bytes_example =
    unpack_container_stream-frame_bytes 1 payload (2 ∷ []) socket (omega arith) (omega arith)
      (λ e. ground arith, (λ e. ground arith, (λ e. ground arith, tt))) refl

abbrev rounds : List Ready
rounds =
    (some (1, 104 ∷ []), none)
    ∷ (none, some (7 ∷ []))
    ∷ (some (2, 33 ∷ []), some [])
    ∷ (some (1, 105 ∷ []), none)
    ∷ (some (0, []), none)
    ∷ []

run_lem_example :
    let t = run true rounds (start true true) in
    Got true (33 ∷ []) t.stderr_s
    × (s : ToolStream) × (t.stdout_s ≡ some s)
    × Got true (104 ∷ 105 ∷ []) s
unfolding nat_eq
run_lem_example = run_lem true true rounds

-- Times as their texts
abbrev pub texts : TimeFormat
texts = record {
  Time = Text;
  le = text_le;
  strftime = λ t. t;
  strptime = λ v. some v;
  strptime-strftime = λ t. refl;
}

abbrev settings : Settings
settings = record { is_tty = true; read_stdin = true; buffer_output = true; has_terminal = true }

abbrev empty_log : CommandLog texts
empty_log = new_log texts (codes "t" ∷ []) []

container_exec_lem_example :
    Ended texts
      (λ c. c)
      settings
      (Exec.exits rounds 0)
      empty_log
      (container_exec texts (λ c. c) settings (Exec.exits rounds 0) true empty_log)
container_exec_lem_example =
    container_exec_lem texts (λ c. c) settings (Exec.exits rounds 0) empty_log refl
