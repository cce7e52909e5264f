-- ===== src/Log/Store/Laws.antt =====
-- From the end of a run to the next reading of the log, by cincan/command_log.py and the end of
-- `main` of cincan/frontend.py.
use cincan_command.Prelude.{
  ℕ, suc, Text, All, any, not, Bool-cases, Option-cases, true, none, some, List, ◌∷◌, ◌==◌, nat_eq,
  ==_self, ◌≡◌, refl, ap, ◌∙◌, inl, inr, arith,
}
use mathlib.Core.List.{Permᴰ}
use cincan_command.Path.{PurePath, path_eq}
use cincan_command.Log.Json.{TimeFormat, CommandLog}
use cincan_command.Log.Json.RoundTrip.{HasPath, restored}
use cincan_command.Log.Directory.{Entries, end, exists, logs, read_log}
use cincan_command.Log.Directory.Index.{IsFlat, Relisted, read_log-write}
use cincan_command.Log.Store.{
  Home, put_logs, make_cincan, shared_logs, directory_name, log_base, write_entry, read_index,
  log_run,
}
use cincan_command.Main.{finish_run}

module _ (home : PurePath) where
  directory_name-uid :
      (uuid name : Text) (h h₁ : Home)
      → directory_name home uuid h ≡ some (name, h₁)
      → h₁.uid ≡ some name
  unfolding directory_name
  directory_name-uid uuid name h h₁ e = elim (Option-cases h.uid) [
    | inl k ↦ elim (Bool-cases h.has_cincan) [
      | inl b ↦ let e' = rw (k, b) at e in ground (arith, e')
      | inr b ↦ let e' = rw (k, b) at e in cc e'
    ]
    | inr (n, k) ↦ let e' = rw k at e in ground (arith, e', k)
  ]

  log_base-uid :
      (uuid : Text) (name : Text) (h : Home)
      → h.uid ≡ some name
      → log_base home none uuid h ≡ some (shared_logs home name, make_cincan h)
  unfolding log_base directory_name
  log_base-uid uuid name h e = rw e refl

  log_base_inv :
      (uuid : Text) (h h₁ : Home) (dir : PurePath)
      → log_base home none uuid h ≡ some (dir, h₁)
      → (name : Text) × (h₁.uid ≡ some name) × (shared_logs home name ≡ dir)
  unfolding log_base
  log_base_inv uuid h h₁ dir e = elim (Option-cases (directory_name home uuid h)) [
    | inl k ↦ let e' = rw k at e in cc e'
    | inr ((name, h'), k) ↦
        let e' = rw k at e in
        (name, ground (arith, e', directory_name-uid uuid name h h' k), ground (arith, e'))
  ]

  module _ (T : TimeFormat) where
    -- The index of a home that has its UUID, after a directory of logs has been written
    read_index-put_logs :
        (uuid name : Text) (depth : ℕ) (iterdir : Entries → Entries) (h : Home) (d : Entries)
        → h.uid ≡ some name
        → read_index home T none uuid depth iterdir (put_logs (shared_logs home name) d h)
          ≡ some
              (read_log T depth (iterdir d) end, make_cincan (put_logs (shared_logs home name) d h))
    unfolding read_index
    read_index-put_logs uuid name depth iterdir h d e =
        rw (log_base-uid uuid name (put_logs (shared_logs home name) d h) e)
          (rw (==_self (shared_logs home name)) refl)

    -- A run exits with 0, and logs are wanted. If the directory of the logs is found or can be made,
    -- holds nothing but entries that can be read, and the clock gives a free name at some time, then
    -- the run's log is written, and a later program, whatever UUID it would make, finds the same
    -- directory and reads, in whatever order it is listed, exactly the log and the former ones, but
    -- for the log's streams. The paths of the log's files are ones that their texts tell.
    pub read_index-log_run :
        (uuid uuid' : Text) (log : CommandLog T) (names : List Text) (depth : ℕ)
        (iterdir : Entries → Entries) (h h₁ : Home) (dir : PurePath) (ls : List (CommandLog T))
        → ((d : Entries) → IsFlat d → Relisted (iterdir d) d)
        → log_base home none uuid h ≡ some (dir, h₁)
        → log.exit_code ≡ 0
        → IsFlat (h₁.logs_at dir)
        → All (HasPath T) log.in_files
        → All (HasPath T) log.out_files
        → any (λ name. not (exists name (h₁.logs_at dir))) names ≡ true
        → read_log T (suc depth) (h₁.logs_at dir) (h₁.logs_at dir) ≡ logs ls
        → (h' : Home) × (h'' : Home) × (ls' : List (CommandLog T)) × (log_run home T true uuid log
              names h
            ≡ some h')
          × (read_index home T none uuid' (suc depth) iterdir h' ≡ some (logs ls', h''))
          × Permᴰ ls' (restored T log ∷ ls)
    unfolding log_run write_entry finish_run
    read_index-log_run uuid uuid' log names depth iterdir h h₁ dir ls listed e z flat i o free r =
        let (name, u, s) = log_base_inv uuid h h₁ dir e in
        let (d, w, flat', reads) =
          read_log-write T log names depth (h₁.logs_at dir) ls flat i o free r in
        let (ls', r', p) = reads (iterdir d) (listed d flat') in
        let h' : Home = put_logs dir d h₁ in
        let found = read_index-put_logs uuid' name (suc depth) iterdir h₁ d u in
        let found' = rw s at found in
        let b : (log.exit_code == 0) ≡ true = ground arith in
        (
          h',
          make_cincan h',
          ls',
          rw b (rw e (rw w refl)),
          found' ∙ ap (λ l. some (l, make_cincan h')) r',
          p,
        )
