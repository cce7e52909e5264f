-- ===== src/Tar/Filter/Laws.antt =====
-- What `__filter_files` of cincan/tar_tool.py keeps.
use cincan_command.Prelude.{
  Text, starts_with, contains, contains-sort, contains-append, contains-keep, keep, Bool, true,
  false, ◌&&◌, List, [], ◌∷◌, ◌++◌, nat_eq, list_eq, ◌≡◌, refl, arith, all, All, inl, inr,
  Bool-cases,
}
use cincan_command.Matcher.{FileMatcher, filter_download_files, keeps_download}
use cincan_command.Tar.Filter.{
  drop_parents, base_candidates, apply_filters, parents_of, filter_files, ignore_filename,
  chosen_filters,
}
use cincan_command.Tar.Config.{ignore_filters}

keep-all {ℓ} :
    {A : Type ℓ} (p q r : A → Bool)
    → ((a : A) → r a ≡ (p a && q a))
    → (xs : List A) → keep q (keep p xs) ≡ keep r xs
keep-all p q r h [] = refl
keep-all p q r h (x ∷ xs) = ground (arith, keep-all p q r h xs, h x)

keep-true {ℓ} : {A : Type ℓ} (xs : List A) → keep (λ _. true) xs ≡ xs
keep-true [] = refl
keep-true (x ∷ xs) = rw (keep-true xs)

-- Filters in a row keep what each of them keeps, whatever their order.
pub apply_filters-eq-keep :
    (ms : List FileMatcher) (candidates : List Text) (work_dir : Text)
    → apply_filters ms candidates work_dir
      ≡ keep (λ c. all (λ m. keeps_download m work_dir c) ms) candidates
unfolding apply_filters filter_download_files
apply_filters-eq-keep [] candidates work_dir = rw (keep-true candidates)
apply_filters-eq-keep (m ∷ ms) candidates work_dir = rw (apply_filters-eq-keep ms) (
    keep-all (keeps_download m work_dir) (λ c. all (λ m. keeps_download m work_dir c) ms) _
      (λ a. refl) candidates)

All-of_contains :
    (P : Text → Type 0) (xs : List Text) → ((a : Text) → contains xs a ≡ true → P a) → All P xs
All-of_contains P [] h = tt
All-of_contains P (x ∷ xs) h =
    (h x (ground arith), All-of_contains P xs (λ a e. h a (rw e (ground arith))))

contains-drop_parents :
    (c : Text) (cs skip_set : List Text)
    → contains (drop_parents cs skip_set) c ≡ true
    → (contains cs c ≡ true) × (contains skip_set c ≡ false)
unfolding drop_parents
contains-drop_parents c [] skip_set h = cc
contains-drop_parents c (x ∷ cs) skip_set h = ground (
  arith,
  contains-drop_parents c cs skip_set,
  contains-drop_parents c cs (parents_of x ++ skip_set),
  contains-append (parents_of x) skip_set c,
)

-- Paths of which none is a parent of one before it.
abbrev pub NoParents : List Text → Type 0
NoParents [] = Unit
NoParents (c ∷ cs) = All (λ d. contains (parents_of c) d ≡ false) cs × NoParents cs

-- In the list that is left, no path leads to one before it.
pub drop_parents-NoParents : (cs skip_set : List Text) → NoParents (drop_parents cs skip_set)
unfolding drop_parents
drop_parents-NoParents [] skip_set = tt
drop_parents-NoParents (c ∷ cs) skip_set = elim (Bool-cases (contains skip_set c)) [
  | inl e ↦ rw e (drop_parents-NoParents cs skip_set)
  | inr e ↦ rw e (
    All-of_contains _ _ λ d m. ground (
      arith,
      contains-drop_parents d cs (parents_of c ++ skip_set) m,
      contains-append (parents_of c) skip_set d,
    ),
    drop_parents-NoParents cs (parents_of c ++ skip_set),
  )
]

-- What is downloaded is among the candidates, begins with the working directory, and passes every
-- chosen filter.
pub filter_files_sound :
    (candidates : List Text) (filters : List FileMatcher) (no_defaults : Bool)
    (ignore_paths : List Text) (work_dir c : Text)
    → contains (filter_files candidates filters no_defaults ignore_paths work_dir) c ≡ true
    → (contains candidates c ≡ true)
      × (starts_with c work_dir ≡ true)
      × (all
            (λ m. keeps_download m work_dir c)
            (chosen_filters filters no_defaults
              (ignore_filters (ignore_paths ++ ignore_filename ∷ [])))
          ≡ true)
unfolding filter_files base_candidates
filter_files_sound candidates filters no_defaults ignore_paths work_dir c h =
    let h' = simp (apply_filters-eq-keep, contains-keep, contains-sort) at h in
    ground (arith, h', contains-drop_parents c candidates [])

-- Of two filters of which the first includes, the second is not applied, even if it includes too,
-- unless the defaults are switched off.
filter_files-second_include :
    (candidates : List Text) (f g : FileMatcher) (ignore_paths : List Text) (work_dir : Text)
    → f.include ≡ true
    → filter_files candidates (f ∷ g ∷ []) false ignore_paths work_dir
      ≡ filter_download_files f (base_candidates candidates work_dir) work_dir
unfolding filter_files apply_filters chosen_filters
filter_files-second_include candidates f g ignore_paths work_dir h = ground arith
