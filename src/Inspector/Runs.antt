-- ===== src/Inspector/Runs.antt =====
-- From a run of the program to the trees of cincan/command_inspector.py, by way of the log.
use cincan_command.Prelude.{
  ℕ, suc, Text, All, any, keep, not, sort, insert, Bool, Bool-cases, true, none, some, List, [],
  ◌∷◌, ◌++◌, nat_eq, list_eq, ◌≡◌, ◌∙◌, refl, ap, inl, inr,
}
use mathlib.Core.List.{Memᴰ, Permᴰ}
use mathlib.Core.List.Memᴰ.{head, tail}
use mathlib.Core.List.Permᴰ
use cincan_command.Path.{PurePath}
use cincan_command.Log.Json.{TimeFormat, CommandLog}
use cincan_command.Log.Json.RoundTrip.{HasPath, restored}
use cincan_command.Log.Directory.{Entries, exists, logs, read_log, list_entries}
use cincan_command.Log.Directory.Index.{IsFlat, Relisted}
use cincan_command.Log.Store.{Home, log_base, read_index, log_run}
use cincan_command.Log.Store.Laws.{read_index-log_run}
use cincan_command.Inspector.{
  Files, FileDependency, file_dependency, Direction, touches, fan, fanin, backwards, digest_for,
  file_check,
}
use cincan_command.Inspector.Trace.{commands_of, visit_commands-Traced, fan-Traced}

-- An item stands in a list.
abbrev pub Stands {ℓ} : {A : Type ℓ} → A → List A → Type ℓ
Stands {A = A} a xs = (before : List A) × (after : List A) × (xs ≡ before ++ a ∷ after)

Mem-Stands {ℓ} : {A : Type ℓ} → (a : A) (xs : List A) → Memᴰ a xs → Stands a xs
Mem-Stands a [] m = elim m [ ]
Mem-Stands a (x ∷ xs) (head e) = ([], xs, rw e refl)
Mem-Stands a (x ∷ xs) (tail m) =
    let (before, after, same) = Mem-Stands a xs m in (x ∷ before, after, ap (λ v. x ∷ v) same)

Perm-Mem {ℓ} : {A : Type ℓ} → (a : A) {xs ys : List A} → Permᴰ xs ys → Memᴰ a xs → Memᴰ a ys
Perm-Mem a Permᴰ.nil m = m
Perm-Mem a (Permᴰ.cons e p) (head k) = head (k ∙ e)
Perm-Mem a (Permᴰ.cons e p) (tail m) = tail (Perm-Mem a p m)
Perm-Mem a (Permᴰ.swap e e') (head k) = tail (head (k ∙ e))
Perm-Mem a (Permᴰ.swap e e') (tail (head k)) = head (k ∙ e')
Perm-Mem a (Permᴰ.swap e e') (tail (tail m)) = tail (tail m)
Perm-Mem a (Permᴰ.trans p q) m = Perm-Mem a q (Perm-Mem a p m)

insert-Mem {ℓ} :
    {A : Type ℓ}
    → (le : A → A → Bool) (a x : A) (xs : List A) → Memᴰ a (x ∷ xs)
    → Memᴰ a (insert le x xs)
unfolding insert
insert-Mem le a x [] m = m
insert-Mem le a x (y ∷ xs) m = elim (Bool-cases (le x y)) [
  | inl e ↦ rw e m
  | inr e ↦ rw e (elim m [
    | head k ↦ tail (insert-Mem le a x xs (head k))
    | tail (head k) ↦ head k
    | tail (tail n) ↦ tail (insert-Mem le a x xs (tail n))
  ])
]

sort-Mem {ℓ} :
    {A : Type ℓ} → (le : A → A → Bool) (a : A) (xs : List A) → Memᴰ a xs → Memᴰ a (sort le xs)
unfolding sort
sort-Mem le a [] m = elim m [ ]
sort-Mem le a (x ∷ xs) (head k) = insert-Mem le a x (sort le xs) (head k)
sort-Mem le a (x ∷ xs) (tail m) = insert-Mem le a x (sort le xs) (tail (sort-Mem le a xs m))

keep-Mem {ℓ} :
    {A : Type ℓ}
    → (p : A → Bool) (a : A) (xs : List A) → p a ≡ true
    → Memᴰ a xs
    → Memᴰ a (keep p xs)
keep-Mem p a [] h m = elim m [ ]
keep-Mem p a (x ∷ xs) h (head k) = let h' : p x ≡ true = rw k at h in rw h' (head k)
keep-Mem p a (x ∷ xs) h (tail m) = elim (Bool-cases (p x)) [
  | inl e ↦ rw e (tail (keep-Mem p a xs h m))
  | inr e ↦ rw e (keep-Mem p a xs h m)
]

module _ (T : TimeFormat) where
  -- The commands right under the file that a tree is about
  abbrev pub top : FileDependency T → List (CommandLog T)
  top (file_dependency file digest out next) = commands_of T next

  -- From a fresh start, a tree of any depth shows all the commands that touch the file's digest.
  fan-top :
      (fs : Files) (work_dir : PurePath) (log : List (CommandLog T)) (dir : Direction T) (depth : ℕ)
      (file : PurePath) (digest : Text)
      → top (fan T fs work_dir log dir (suc depth) file digest []).0
        ≡ keep (λ c. touches T (digest_for T fs work_dir log dir file digest) (dir.here c)) log
  unfolding fan
  fan-top fs work_dir log dir depth file digest =
      (visit_commands-Traced T fs work_dir log dir (fan T fs work_dir log dir depth) depth
        (fan-Traced T fs work_dir log dir depth) (digest_for T fs work_dir log dir file digest) log
        (file_check T fs work_dir log dir file digest ∷ [])).0

  restored-Stands :
      (log : CommandLog T) (ls : List (CommandLog T)) (fs : Files) (work_dir : PurePath) (depth : ℕ)
      (file : PurePath)
      → touches T (fs.hash_of file) log.out_files ≡ true
      → Memᴰ (restored T log) ls
      → Stands
          (restored T log)
          (top (fanin T fs work_dir (list_entries T ls true) (suc depth) file [] []).0)
  unfolding fanin list_eq list_entries
  restored-Stands log ls fs work_dir depth file h m =
      rw (fan-top fs work_dir (list_entries T ls true) (backwards T) depth file []) (
        Mem-Stands (restored T log) _ (
          keep-Mem (λ (c : CommandLog T). touches T (fs.hash_of file) c.out_files) (restored T log)
            (list_entries T ls true) h (sort-Mem _ (restored T log) ls m)))

  module _ (home : PurePath) where
    -- A run exits with 0, and logs are wanted. The directory of the logs is found or can be made
    -- and holds nothing but entries that can be read, the clock gives a free name at some time,
    -- and the paths of the log's files are ones that their texts tell. Then the run's log is
    -- written, and a later program that reads the logs, in whatever order they are listed, and
    -- asks what is behind a file, to any depth but 0, is shown the run's command right under the
    -- file, if the hash of the file is that of an output of the run.
    pub log_run-shown :
        (uuid uuid' : Text) (log : CommandLog T) (names : List Text) (depth : ℕ)
        (iterdir : Entries → Entries) (h h₁ : Home) (dir : PurePath) (ls : List (CommandLog T))
        (fs : Files) (work_dir : PurePath) (levels : ℕ) (file : PurePath)
        → ((d : Entries) → IsFlat d → Relisted (iterdir d) d)
        → log_base home none uuid h ≡ some (dir, h₁)
        → log.exit_code ≡ 0
        → IsFlat (h₁.logs_at dir)
        → All (HasPath T) log.in_files
        → All (HasPath T) log.out_files
        → any (λ name. not (exists name (h₁.logs_at dir))) names ≡ true
        → read_log T (suc depth) (h₁.logs_at dir) (h₁.logs_at dir) ≡ logs ls
        → touches T (fs.hash_of file) log.out_files ≡ true
        → (h' : Home) × (h'' : Home) × (ls' : List (CommandLog T)) × (log_run home T true uuid log
              names h
            ≡ some h')
          × (read_index home T none uuid' (suc depth) iterdir h' ≡ some (logs ls', h''))
          × Stands
              (restored T log)
              (top (fanin T fs work_dir (list_entries T ls' true) (suc levels) file [] []).0)
    log_run-shown uuid uuid' log names depth iterdir h h₁ dir ls fs work_dir levels file listed e z
          flat i o free r t =
        let (h', h'', ls', run, read, p) =
          read_index-log_run home T uuid uuid' log names depth iterdir h h₁ dir ls listed e z flat i
            o free r in
        (
          h',
          h'',
          ls',
          run,
          read,
          restored-Stands log ls' fs work_dir levels file t
              (Perm-Mem (restored T log) (Permᴰ.symm p) (head refl)),
        )
