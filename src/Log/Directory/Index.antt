-- ===== src/Log/Directory/Index.antt =====
-- What `CommandLogIndex` of cincan/command_log.py reads of an entry that `CommandLogWriter` writes.
use cincan_command.Prelude.{
  ℕ, suc, Option, none, arith, Text, All, any, not, true, some, List, ◌∷◌, ◌≡◌, refl,
}
use mathlib.Core.List.{Permᴰ}
use mathlib.Core.List.Permᴰ
use cincan_command.Log.Json.{Json, TimeFormat, CommandLog, log_to_json}
use cincan_command.Log.Json.RoundTrip.{HasPath, restored, log_from_json-log_to_json}
use cincan_command.Log.Directory.{
  Entries, end, file, dir, exists, write, Listing, logs, after_file, more_logs, read_entries,
  read_log,
}
use cincan_command.Log.Directory.Laws.{write-some}

-- A directory without directories in it
abbrev pub IsFlat : Entries → Type 0
IsFlat end = Unit
IsFlat (file n j rest) = IsFlat rest
IsFlat (dir n d rest) = ⊥

-- A directory without directories in it, listed in two orders
pub data Relisted : Entries → Entries → Type 0 where
  empty : Relisted end end
  same_first :
      (n : Text) (j : Json) {d e : Entries} → Relisted d e → Relisted (file n j d) (file n j e)
  swapped :
      (n n' : Text) (j j' : Json) (d : Entries)
      → Relisted (file n j (file n' j' d)) (file n' j' (file n j d))
  in_turn : {d e e' : Entries} → Relisted d e → Relisted e e' → Relisted d e'

module _ (T : TimeFormat) where
  read_entries-IsFlat :
      (f g : Entries → Listing T) (d : Entries) → IsFlat d → read_entries T f d ≡ read_entries T g d
  unfolding read_entries
  read_entries-IsFlat f g end h = refl
  read_entries-IsFlat f g (file n j rest) h = rw (read_entries-IsFlat f g rest h) refl
  read_entries-IsFlat f g (dir n d rest) h = absurd h

  after_file_inv :
      (o : Option (CommandLog T)) (rest : Listing T) (ls : List (CommandLog T))
      → after_file T o rest ≡ logs ls
      → (l : CommandLog T) × (ls' : List (CommandLog T)) × (o ≡ some l)
        × (rest ≡ logs ls')
        × (l ∷ ls' ≡ ls)
  unfolding after_file more_logs
  after_file_inv none rest ls h = cc h
  after_file_inv (some l) (logs ls') ls h = (l, ls', refl, refl, ground (arith, h))
  after_file_inv (some l) Listing.bad_entry ls h = cc h
  after_file_inv (some l) Listing.recursion_error ls h = cc h

  -- A directory that can be read in one order can be read in another, with the same logs.
  read_entries-Relisted :
      (sub : Entries → Listing T) {d e : Entries}
      → Relisted d e
      → (ls : List (CommandLog T)) → read_entries T sub e ≡ logs ls
      → (ls' : List (CommandLog T)) × (read_entries T sub d ≡ logs ls') × Permᴰ ls' ls
  unfolding read_entries after_file more_logs
  read_entries-Relisted sub empty ls h = (ls, h, Permᴰ.refl ls)
  read_entries-Relisted sub (same_first n j r) ls h =
      let (l, rest, e, k, same) = after_file_inv _ _ ls h in
      let (ls', k', p) = read_entries-Relisted sub r rest k in
      (l ∷ ls', rw (e, k') refl, rw (← same) (Permᴰ.cons refl p))
  read_entries-Relisted sub (swapped n n' j j' d) ls h =
      let (l, rest, e, k, same) = after_file_inv _ _ ls h in
      let (l', rest', e', k', same') = after_file_inv _ _ rest k in
      (l' ∷ l ∷ rest', rw (e, e', k') refl, rw (← same, ← same') (Permᴰ.swap refl refl))
  read_entries-Relisted sub (in_turn r r') ls h =
      let (ls₁, h₁, p) = read_entries-Relisted sub r' ls h in
      let (ls₂, h₂, p') = read_entries-Relisted sub r ls₁ h₁ in (ls₂, h₂, Permᴰ.trans p' p)

  -- In a directory without directories in it, whose entries can be read, and with a clock that gives
  -- a free name at some time, an entry is written. In whatever order the directory is listed then,
  -- the entry and the former ones are read back, but for its exit code and its streams, if the paths
  -- of its files are ones that their texts tell.
  pub read_log-write :
      (log : CommandLog T) (names : List Text) (depth : ℕ) (d : Entries) (ls : List (CommandLog T))
      → IsFlat d
      → All (HasPath T) log.in_files
      → All (HasPath T) log.out_files
      → any (λ name. not (exists name d)) names ≡ true
      → read_log T (suc depth) d d ≡ logs ls
      → (d' : Entries) × (write T log names d ≡ some d')
        × IsFlat d'
        × ((e : Entries)
            → Relisted e d'
            → (ls' : List (CommandLog T)) × (read_log T (suc depth) e end ≡ logs ls')
              × Permᴰ ls' (restored T log ∷ ls))
  unfolding read_log read_entries after_file more_logs
  read_log-write log names depth d ls flat i o free h =
      let (name, e, _) = write-some T log names d free in
      let d' : Entries = file name (log_to_json T log) d in
      (
        d',
        e,
        flat,
        λ e' r. read_entries-Relisted (read_log T depth e') r (restored T log ∷ ls) (
            rw
              (
                log_from_json-log_to_json T log i o,
                read_entries-IsFlat (read_log T depth e') (read_log T depth d) d flat,
                h,
              )
              refl),
      )
