-- ===== src/Program/Status.antt =====
-- The exit code and the output of the program of cincan/frontend.py, from its options on.
use cincan_command.Prelude.{ℕ, Option, none, some, List, [], ◌≡◌, ◌⊎◌}
use cincan_command.Log.Json.{TimeFormat, CommandLog}
use cincan_command.Main.{SubCommand, test}
use cincan_command.Images.{Client, Names}
use cincan_command.Session.Exec.Streamed.{EndsWith}
use cincan_command.Run.Launch.{World}
use cincan_command.Check
use cincan_command.Program.{
  Finish, ended, exits_with, exited, raised, shows_version, shows_manifest, lists, Outside,
}

module _ (T : TimeFormat) (names : Names) (client : Client) (w : World T)
    (o : Outside T names client) where
  open client use {State}

  -- The status and the message are those of the container's end, and only a check has an output.
  abbrev pub Streams : SubCommand → ℕ → List ℕ → List ℕ → Type 0
  Streams sub_command code out err =
      EndsWith o.outcome code err × ((sub_command ≡ test) ⊎ (out ≡ []))

  abbrev LogStreams : SubCommand → Option (CommandLog T) → Type 0
  LogStreams sub_command none = Unit
  LogStreams sub_command (some log) = Streams sub_command log.exit_code log.stdout log.stderr

  abbrev pub EndStreams : SubCommand → Finish → Type 0
  EndStreams sub_command (ended code out err) = Streams sub_command code out err
  EndStreams sub_command (exits_with message) = Unit
  EndStreams sub_command (exited code) = Unit
  EndStreams sub_command raised = Unit
  EndStreams sub_command shows_version = Unit
  EndStreams sub_command (shows_manifest name tag) = Unit
  EndStreams sub_command lists = Unit
