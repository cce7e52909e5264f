-- ===== src/Log/Directory/Laws.antt =====
-- What `write` and `__read_log` of cincan/command_log.py do to a directory of logs.
use cincan_command.Prelude.{
  ℕ, zero, suc, Text, true, false, Option, none, some, List, [], ◌∷◌, ◌==◌, nat_eq, list_eq,
  if◌then◌else◌, ◌≡◌, ◌≢◌, refl, arith, any, not, Bool-cases, inl, inr,
}
use cincan_command.Log.Json.{Json, TimeFormat, CommandLog, log_to_json, log_from_json}
use cincan_command.Log.Directory.{
  Entries, end, file, dir, exists, write, Listing, recursion_error, read_entries, read_log,
}

abbrev pub find_file : Text → Entries → Option Json
find_file name end = none
find_file name (file n j rest) =
    let later = find_file name rest in if n == name then some j else later
find_file name (dir n d rest) = find_file name rest

-- All files of the directory hold entries, and a directory is among them.
abbrev pub HasDir : TimeFormat → Entries → Type 0
HasDir T end = ⊥
HasDir T (file n j rest) = (log_from_json T j ≢ none) × HasDir T rest
HasDir T (dir n d rest) = Unit

module _ (T : TimeFormat) where
  exists-find_file : (name : Text) (d : Entries) → exists name d ≡ false → find_file name d ≡ none
  unfolding exists
  exists-find_file name end h = refl
  exists-find_file name (file n j rest) h = ground (arith, exists-find_file name rest)
  exists-find_file name (dir n d rest) h = ground (arith, exists-find_file name rest)

  -- If the clock gives a free name at some time, the entry is written there, in front of the
  -- entries that were there before, and no file has been replaced.
  pub write-some :
      (log : CommandLog T) (names : List Text) (d : Entries)
      → any (λ name. not (exists name d)) names ≡ true
      → (name : Text) × (write T log names d ≡ some (file name (log_to_json T log) d))
        × (exists name d ≡ false)
  unfolding write
  write-some log [] d h = cc
  write-some log (name ∷ names) d h = elim (Bool-cases (exists name d)) [
    | inl taken ↦ rw taken (write-some log names d (ground arith))
    | inr free ↦ (name, rw free refl, free)
  ]

  -- A file that is there before an entry is written is there afterwards, with the same content.
  pub find_file-write :
      (log : CommandLog T) (names : List Text) (d d' : Entries) (other : Text) (j : Json)
      → write T log names d ≡ some d'
      → find_file other d ≡ some j
      → find_file other d' ≡ some j
  unfolding write
  find_file-write log [] d d' other j h k = cc
  find_file-write log (name ∷ names) d d' other j h k =
      ground (arith, find_file-write log names d d' other j, exists-find_file name d)

  read_entries-recursion :
      (sub : Entries → Listing T) (d : Entries)
      → ((e : Entries) → sub e ≡ recursion_error)
      → HasDir T d
      → read_entries T sub d ≡ recursion_error
  unfolding read_entries
  read_entries-recursion sub end h k = absurd k
  read_entries-recursion sub (file n j rest) h k =
      ground (arith, read_entries-recursion sub rest h k.1)
  read_entries-recursion sub (dir n d rest) h k = rw (h d) refl

  -- If a directory is among the logs, behind none but files that hold entries, the walk starts over
  -- without end: at no depth does it give a list.
  pub read_log-recursion :
      (depth : ℕ) (log_directory directory : Entries)
      → HasDir T log_directory
      → read_log T depth log_directory directory ≡ recursion_error
  unfolding read_log
  read_log-recursion zero log_directory directory h = refl
  read_log-recursion (suc depth) log_directory directory h =
      read_entries-recursion (read_log T depth log_directory) log_directory
        (λ e. read_log-recursion depth log_directory e h) h
