-- ===== src/Tar/Results/Rounds.antt =====
-- What all downloads of archives keep, the rounds of `download_files` of cincan/tar_tool.py keep.
use cincan_command.Prelude.{
  Text, codes, sort, text_le, Bool, Bool-cases, not, ◌&&◌, Option, Option-cases, none, some, List,
  [], ◌∷◌, ◌==◌, nat_eq, list_eq, if◌then◌else◌, ◌≡◌, inl, inr, refl, arith,
}
use cincan_command.Path.{PurePath, parse, as_posix, join_path}
use cincan_command.Tar.Modified.{UploadStats}
use cincan_command.Tar.Download.{Bytes, Member, Download, download_file_set, ◌>>=◌}
use cincan_command.Tar.Results.{
  Container, fetched, download_at, download_explicit, download_each, download_rounds,
}

-- What an action shows of the state before it and its result, if it is shown of no change, and of
-- one action after another
module _ (Result : Download → Option Download → Type 0) where
  abbrev pub Shows : (Download → Option Download) → Type 0
  Shows action = (d : Download) → Result d (action d)

  pub record IsEffect : Type 0 where
    pub of_nothing : (d : Download) → Result d (some d)
    pub of_both :
        (d : Download) (o : Option Download) (g : Download → Option Download)
        → Result d o
        → Shows g
        → Result d (o >>= g)

  module _ (effect : IsEffect) where
    nothing-Shows : Shows some
    nothing-Shows = effect.of_nothing

    bind-Shows : (f g : Download → Option Download) → Shows f → Shows g → Shows (λ d. f d >>= g)
    bind-Shows f g kf kg d = effect.of_both d (f d) g (kf d) kg

    if-Shows :
        (test : Download → Bool) (f g : Download → Option Download)
        → Shows f
        → Shows g
        → Shows (λ d. if test d then f d else g d)
    if-Shows test f g kf kg d = elim (Bool-cases (test d)) [
      | inl e ↦ rw e (kf d)
      | inr e ↦ rw e (kg d)
    ]

    module _ (digest : Bytes → Text) (c : Container) (work_dir : Text) (stats : UploadStats)
        (to_tar : Bool)
        (file_set-Shows : (path : Text) (ms : List Member)
          → c.archive path ≡ some ms
          → Shows (download_file_set digest work_dir stats to_tar (parse path) ms)) where
      fetched-Shows :
          (file_path : Text) (o : Option (List Member))
          → c.archive file_path ≡ o
          → Shows (fetched digest c work_dir stats to_tar file_path o)
      unfolding fetched
      fetched-Shows file_path none e = nothing-Shows
      fetched-Shows file_path (some ms) e = file_set-Shows file_path ms e

      download_at-Shows :
          (file_path : Text) → Shows (download_at digest c work_dir stats to_tar file_path)
      unfolding download_at
      download_at-Shows file_path = fetched-Shows file_path (c.archive file_path) refl

      download_explicit-Shows :
          (fps : List Text) → Shows (download_explicit digest c work_dir stats to_tar fps)
      unfolding download_explicit
      download_explicit-Shows [] = nothing-Shows
      download_explicit-Shows (fp ∷ fps) =
          bind-Shows _ (download_explicit digest c work_dir stats to_tar fps)
            (if-Shows (λ d. d.files == []) some _ nothing-Shows
              (download_at-Shows (as_posix (join_path (parse work_dir) (parse fp)))))
            (download_explicit-Shows fps)

      download_each-Shows :
          (fs : List Text) → Shows (download_each digest c work_dir stats to_tar fs)
      unfolding download_each
      download_each-Shows [] = nothing-Shows
      download_each-Shows (f ∷ fs) =
          bind-Shows _ (download_each digest c work_dir stats to_tar fs) (download_at-Shows f)
            (download_each-Shows fs)

      pub download_rounds-Shows :
          (fps : List Text) (implicit_output : Bool)
          → Shows (download_rounds digest c work_dir stats to_tar fps implicit_output)
      unfolding download_rounds
      download_rounds-Shows fps implicit_output =
          bind-Shows _ _
            (if-Shows (λ d. implicit_output && not (work_dir == codes "/")) _ some
              (download_at-Shows work_dir) nothing-Shows)
            (bind-Shows _ _ (download_explicit-Shows fps) (
              if-Shows (λ d. implicit_output) _ some
                (λ d. download_each-Shows (sort text_le d.files) d) nothing-Shows))

-- A relation between the states before and after
module _ (Related : Download → Download → Type 0) where
  abbrev Relates : Download → Option Download → Type 0
  Relates d o = (d' : Download) → o ≡ some d' → Related d d'

  -- Whenever an action returns, its states are related.
  abbrev pub Keeps : (Download → Option Download) → Type 0
  Keeps = Shows Relates

  pub record IsPreorder : Type 0 where
    pub related_self : (d : Download) → Related d d
    pub related_then : (d d₁ d₂ : Download) → Related d d₁ → Related d₁ d₂ → Related d d₂

  preorder-IsEffect : IsPreorder → IsEffect Relates
  preorder-IsEffect pre = record {
    of_nothing = λ d d' h. let e : d ≡ d' = ground arith in rw (← e) (pre.related_self d);
    of_both = λ d o g k kg d' h. elim (Option-cases o) [
      | inl e ↦ let h' = rw e at h in cc h'
      | inr (d₁, e) ↦ pre.related_then d d₁ d' (k d₁ e) (kg d₁ d' (rw e at h))
    ];
  }

  -- If the loop over each archive keeps the relation, so do the rounds.
  pub download_rounds-Keeps :
      (pre : IsPreorder) (digest : Bytes → Text) (c : Container) (work_dir : Text)
      (stats : UploadStats) (to_tar : Bool)
      → ((base_path : PurePath) (ms : List Member)
          → Keeps (download_file_set digest work_dir stats to_tar base_path ms))
      → (fps : List Text) (implicit_output : Bool)
      → Keeps (download_rounds digest c work_dir stats to_tar fps implicit_output)
  download_rounds-Keeps pre digest c work_dir stats to_tar h =
      download_rounds-Shows Relates (preorder-IsEffect pre) digest c work_dir stats to_tar
        (λ path ms e. h (parse path) ms)
