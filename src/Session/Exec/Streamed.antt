-- ===== src/Session/Exec/Streamed.antt =====
-- What `__container_exec` of cincan/frontend.py notes in the log when its streams are not kept.
use cincan_command.Prelude.{
  ℕ, Text, Bool, Bool-cases, false, not, ◌&&◌, none, some, List, [], ◌≡◌, refl, inl, inr, arith,
}
use cincan_command.Log.Json.{TimeFormat, CommandLog}
use cincan_command.Run.{Exec, returns}
use cincan_command.Session.Exec.{
  Outcome, start_fails, exits, interrupted, cut_off, Settings, collect_raw, log_session,
  after_start, container_exec,
}

-- How a log ends whose streams are not kept: with the container's status and the message of a start
-- that fails, or with nothing after Ctrl+C
abbrev pub EndsWith : Outcome → ℕ → List ℕ → Type 0
EndsWith (start_fails status none) code err = ⊥
EndsWith (start_fails status (some message)) code err = (code ≡ status) × (err ≡ message)
EndsWith (exits rs status) code err = (code ≡ status) × (err ≡ [])
EndsWith interrupted code err = (code ≡ 0) × (err ≡ [])
EndsWith cut_off code err = ⊥

module _ (T : TimeFormat) where
  -- A log without any entry of an end
  abbrev pub IsFresh : CommandLog T → Type 0
  IsFresh log = (log.exit_code ≡ 0) × (log.stdout ≡ []) × (log.stderr ≡ [])

  abbrev pub IsStreamed : Outcome → CommandLog T → Type 0
  IsStreamed outcome log = EndsWith outcome log.exit_code log.stderr × (log.stdout ≡ [])

  -- The outcome of an execution that is interrupted
  pub container_exec-interrupted :
      (digest : List ℕ → Text) (v : Settings) (writes : Bool) (log : CommandLog T)
      (outcome : Outcome)
      → container_exec T digest v outcome writes log ≡ Exec.interrupted
      → outcome ≡ interrupted
  unfolding container_exec after_start
  container_exec-interrupted digest v writes log outcome e =
      elim (Bool-cases (v.is_tty && v.read_stdin && not v.has_terminal)) [
        | inl f ↦ let e' = rw f at e in cc e'
        | inr f ↦ let e' = rw f at e in go outcome e'
      ]
    where
      go :
          (outcome : Outcome)
          → after_start T digest v writes log outcome ≡ Exec.interrupted
          → outcome ≡ interrupted
      go (start_fails status none) e = cc e
      go (start_fails status (some message)) e = cc e
      go (exits rs status) e = cc e
      go interrupted e = refl
      go cut_off e = cc e

  module _ (digest : List ℕ → Text) (v : Settings) (streams : v.buffer_output ≡ false) where
    after_start-IsStreamed :
        (writes : Bool) (log log' : CommandLog T) (outcome : Outcome)
        → IsFresh log
        → after_start T digest v writes log outcome ≡ returns log'
        → IsStreamed outcome log'
    unfolding after_start log_session collect_raw
    after_start-IsStreamed writes log log' (start_fails status none) (code, out, err) e = cc e
    after_start-IsStreamed writes log log' (start_fails status (some m)) (code, out, err) e =
        ground (arith, e, out)
    after_start-IsStreamed writes log log' (exits rs status) (code, out, err) e =
        let e' = rw streams at e in ground (arith, e', out, err)
    after_start-IsStreamed writes log log' interrupted fresh e = cc e
    after_start-IsStreamed writes log log' cut_off fresh e = cc e

    pub container_exec-IsStreamed :
        (writes : Bool) (log log' : CommandLog T) (outcome : Outcome)
        → IsFresh log
        → container_exec T digest v outcome writes log ≡ returns log'
        → IsStreamed outcome log'
    unfolding container_exec
    container_exec-IsStreamed writes log log' outcome fresh e =
        elim (Bool-cases (v.is_tty && v.read_stdin && not v.has_terminal)) [
          | inl f ↦ let e' = rw f at e in cc e'
          | inr f ↦ let e' = rw f at e in after_start-IsStreamed writes log log' outcome fresh e'
        ]
