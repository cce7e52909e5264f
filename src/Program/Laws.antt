-- ===== src/Program/Laws.antt =====
-- What the program of cincan/frontend.py leaves and tells, from its options on.
use cincan_command.Prelude.{Bool, true, false, none, some, nat_eq, if◌then◌else◌, ◌≡◌, ◌⊎◌}
use cincan_command.Log.Json.{TimeFormat, CommandLog}
use cincan_command.Log.Store.{Home, write_entry}
use cincan_command.Images.{Client, Names}
use cincan_command.Run.Launch.{World}
use cincan_command.Program.{Finish, ended, Outside}

pub if-both {ℓ κ} :
    {A : Type ℓ} → (b : Bool) (P : A → Type κ) (x y : A) → P x → P y → P (if b then x else y)
if-both true P x y h k = h
if-both false P x y h k = k

module _ (T : TimeFormat) (names : Names) (client : Client) (w : World T)
    (o : Outside T names client) where
  open client use {State}

  -- The home is as before, or the program has ended with 0 and logs, and the log has been written.
  abbrev pub Logged : Home → Finish → Home → Type 0
  Logged h f h' =
      (h' ≡ h)
      ⊎ ((log : CommandLog T) × (log.exit_code ≡ 0)
          × (o.command_log ≡ true)
          × (f ≡ ended 0 log.stdout log.stderr)
          × (write_entry o.home T none o.uuid log o.log_names h ≡ some h'))
