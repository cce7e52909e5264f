-- ===== src/Tar/Modified.antt =====
-- `__check_if_modified` of cincan/tar_tool.py. A time is a number of microseconds.
use cincan_command.Prelude.{
  ℕ, ◌/◌, Text, Bool, true, false, not, Option, none, some, List, [], ◌∷◌, ◌==◌, nat_eq, list_eq,
  if◌then◌else◌, ◌≡◌, ◌≢◌, ◌↔◌, refl, ◌∙◌, arith,
}

pub record UploadStat : Type 0 where
  pub orig_size : ℕ
  pub orig_time : ℕ
  pub up_time : ℕ

abbrev pub UploadStats : Type 0
UploadStats = List (Text × UploadStat)

-- `stats.get(name)`
unfoldable pub get_stat : Text → UploadStats → Option UploadStat
get_stat name [] = none
get_stat name ((n, s) ∷ rest) =
    let later = get_stat name rest in if n == name then some s else later

-- `stats[name] = stat`
unfoldable pub set_stat : Text → UploadStat → UploadStats → UploadStats
set_stat name s [] = (name, s) ∷ []
set_stat name s ((n, t) ∷ rest) =
    let later = (n, t) ∷ set_stat name s rest in if n == name then (n, s) ∷ rest else later

-- `int(time)`
abbrev pub seconds : ℕ → ℕ
seconds t = t / 1000000

compare_stat : Option UploadStat → ℕ → ℕ → Bool × Bool
compare_stat none down_size down_time = (true, false)
compare_stat (some s) down_size down_time =
    if not (s.orig_size == down_size)
    then (true, false)
    else if not (seconds s.orig_time == seconds down_time)
    then (true, false)
    else if not (seconds s.orig_time == seconds s.up_time)
    then (false, true)
    else (false, false)

-- `__check_if_modified`: "modified" and "not modified", by the size and the time in the container
unfoldable pub check_if_modified : UploadStats → Text → ℕ → ℕ → Bool × Bool
unfolding compare_stat
check_if_modified stats host_file size mtime = compare_stat (get_stat host_file stats) size mtime

-- The stat shows no change: same size, and the same second of the time.
abbrev pub Same : UploadStat → ℕ → ℕ → Type 0
Same s size mtime = (s.orig_size ≡ size) × (seconds s.orig_time ≡ seconds mtime)

unmodified :
    (o : Option UploadStat) (size mtime : ℕ)
    → (compare_stat o size mtime).1 ≡ true
    → (s : UploadStat) × (o ≡ some s)
      × Same s size mtime
      × (seconds s.orig_time ≢ seconds s.up_time)
unfolding compare_stat
unmodified none size mtime h = cc
unmodified (some s) size mtime h = (s, refl, (ground arith, ground arith), ground arith)

settled :
    (o : Option UploadStat) (size mtime : ℕ)
    → ((s : UploadStat) × (o ≡ some s)
        × Same s size mtime
        × (seconds s.orig_time ≢ seconds s.up_time))
    → (compare_stat o size mtime).1 ≡ true
unfolding compare_stat
settled o size mtime (s, e, same, old) = rw e (ground arith)

modified :
    (o : Option UploadStat) (size mtime : ℕ)
    → (compare_stat o size mtime).0 ≡ true
    → (s : UploadStat) → o ≡ some s
    → ¬ Same s size mtime
unfolding compare_stat
modified o size mtime h s e same =
    let h' : (compare_stat (some s) size mtime).0 ≡ true = rw e at h in ground arith

differs :
    (o : Option UploadStat) (size mtime : ℕ)
    → ((s : UploadStat) → o ≡ some s → ¬ Same s size mtime)
    → (compare_stat o size mtime).0 ≡ true
unfolding compare_stat
differs none size mtime h = refl
differs (some s) size mtime h = ground (arith, h s refl)

-- A file is held to be unmodified exactly if it has been uploaded, has the size and the second of
-- then, and the second of its own time then was not that of the upload, be it before or behind it.
-- It is held to be modified exactly if it has not been
-- uploaded, or differs in size or second.
pub check_if_modified_lem :
    (stats : UploadStats) (host_file : Text) (size mtime : ℕ)
    → (((check_if_modified stats host_file size mtime).1 ≡ true) ↔ (
        (s : UploadStat) × (get_stat host_file stats ≡ some s)
        × Same s size mtime
        × (seconds s.orig_time ≢ seconds s.up_time)))
      × (((check_if_modified stats host_file size mtime).0 ≡ true)
          ↔ ((s : UploadStat) → get_stat host_file stats ≡ some s → ¬ Same s size mtime))
unfolding check_if_modified
check_if_modified_lem stats host_file size mtime = (
  (unmodified (get_stat host_file stats) size mtime, settled (get_stat host_file stats) size mtime),
  (modified (get_stat host_file stats) size mtime, differs (get_stat host_file stats) size mtime),
)

-- The answer for a stat that shows no change, of a file that was older than its upload
pub check_if_modified-eq-unmodified :
    (stats : UploadStats) (host_file : Text) (size mtime : ℕ) (s : UploadStat)
    → get_stat host_file stats ≡ some s
    → Same s size mtime
    → seconds s.orig_time ≢ seconds s.up_time
    → check_if_modified stats host_file size mtime ≡ (false, true)
unfolding check_if_modified compare_stat
check_if_modified-eq-unmodified stats host_file size mtime s e same old = rw e (ground arith)

pub get_stat-set_stat :
    (n m : Text) (s : UploadStat) (stats : UploadStats)
    → get_stat m (set_stat n s stats) ≡ (if n == m then some s else get_stat m stats)
unfolding get_stat set_stat
get_stat-set_stat n m s [] = refl
get_stat-set_stat n m s ((k, t) ∷ stats) = ground (arith, get_stat-set_stat n m s stats)

pub get_stat-set_self :
    (n : Text) (s : UploadStat) (stats : UploadStats) → get_stat n (set_stat n s stats) ≡ some s
get_stat-set_self n s stats = get_stat-set_stat n n s stats ∙ ground arith
