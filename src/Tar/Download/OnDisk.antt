-- ===== src/Tar/Download/OnDisk.antt =====
-- What the loop of `__download_file_set` of cincan/tar_tool.py leaves on the host, by its log.
use cincan_command.Prelude.{
  Text, contains, contains-keep, All, All-append, All-map, keep, length, Bool, Bool-cases, true,
  false, not, Option, Option-cases, none, some, List, [], ◌∷◌, ◌++◌, ◌==◌, nat_eq, list_eq,
  if◌then◌else◌, ◌≡◌, ◌≢◌, ◌⊎◌, inl, inr, refl, sym, ap, arith,
}
use mathlib.Core.Option
use cincan_command.Path.{PurePath, as_posix, parent, join_path, is_absolute}
use cincan_command.Tar.Filter.{named_parents}
use cincan_command.Tar.Modified.{UploadStats, check_if_modified}
use cincan_command.Tar.Download.{
  Bytes, Host, Member, LogEntry, Stamp, at_download, of_directory, is_none, Download, log_entry,
  temp_name, with_host, fetch, host_path, save_at, step, download_file_set,
}
use cincan_command.Tar.Download.Stored.{Stays, OnDisk, save_file_inv, save_directory-Stays}

module _ (digest : Bytes → Text) where
  -- An entry of the log tells what is on the host: a file of its digest, unless it has none.
  abbrev pub Told : Host → LogEntry → Type 0
  Told h e = (e.digest ≡ []) ⊎ OnDisk digest h e.path e.digest

  -- A member has been saved under a path: one entry more, which tells what is there, and else nothing
  -- has gone but for the temporary file.
  abbrev SavedAs : Text → Download → Download → Type 0
  SavedAs k d d' =
      (e : LogEntry) × (e.path ≡ k)
      × (d'.logged ≡ d.logged ++ e ∷ [])
      × (d'.files ≡ d.files)
      × Told d'.host e
      × ((j : Text) → k ≢ j → temp_name digest k ≢ j → Stays j d.host d'.host)

  abbrev entry : Text → Text → Stamp → LogEntry
  entry k md t = record { path = k; digest = md; timestamp = t }

  with_host-SavedAs :
      (k md : Text) (t : Stamp) (d d' : Download) (o : Option Host)
      → ((h : Host)
          → o ≡ some h
          → Told h (entry k md t)
            × ((j : Text) → k ≢ j → temp_name digest k ≢ j → Stays j d.host h))
      → Option.map (log_entry digest k md t) (with_host digest d o) ≡ some d'
      → SavedAs k d d'
  unfolding log_entry with_host
  with_host-SavedAs k md t d d' none s h = cc h
  with_host-SavedAs k md t d d' (some host) s h =
      let same : host ≡ d'.host = ground arith in
      let (told, stays) = s host refl in
      (entry k md t, refl, ground arith, ground arith, rw (← same) told, rw (← same) stays)

  fetch-SavedAs :
      (k : Text) (dirs : List Text) (modified : Bool) (m : Member) (content : Option Bytes)
      (d d' : Download)
      → fetch digest false k dirs modified m content d ≡ some d'
      → SavedAs k d d'
  unfolding fetch
  fetch-SavedAs k dirs modified m none d d' h =
      with_host-SavedAs k [] (if is_none (d.host k) then of_directory else at_download) d d' _
        (λ h' e. (inl refl, λ j n t x s. save_directory-Stays digest k dirs d.host h' j e x s)) h
  fetch-SavedAs k dirs modified m (some c) d d' h =
      with_host-SavedAs k (digest c) at_download d d' _
        (λ h' e.
          let (here, stays) = save_file_inv digest k dirs c modified d.host h' e in
          (inr here, stays))
        h

  module _ (work_dir : Text) (stats : UploadStats) where
    save_at-SavedAs :
        (o : Option PurePath) (m : Member) (d d' : Download)
        → save_at digest work_dir stats false o m d ≡ some d'
        → (d ≡ d') ⊎ ((p : PurePath) × (o ≡ some p) × SavedAs (as_posix p) d d')
    unfolding save_at
    save_at-SavedAs none m d d' h = inl (ground arith)
    save_at-SavedAs (some p) m d d' h = elim (Bool-cases (is_absolute p)) [
      | inl e ↦ let h' = rw e at h in inl (ground arith)
      | inr e ↦ elim (Bool-cases (check_if_modified stats (as_posix p) m.size m.mtime).1) [
        | inl e' ↦ let h' = rw (e, e') at h in inl (ground arith)
        | inr e' ↦ inr (
          p,
          refl,
          fetch-SavedAs (as_posix p) (named_parents (length (parent p).parts) (parent p))
              (check_if_modified stats (as_posix p) m.size m.mtime).0 m m.content d d'
              (rw (e, e') at h),
        )
      ]
    ]

    -- Different files of the container have different places on the host, and none is at the place of
    -- another's temporary file.
    abbrev pub Apart : List Text → Type 0
    Apart allowed =
        (f g : Text) (p q : PurePath)
        → contains allowed f ≡ true
        → contains allowed g ≡ true
        → f ≢ g
        → host_path work_dir f ≡ some p
        → host_path work_dir g ≡ some q
        → (as_posix p ≢ as_posix q) × (temp_name digest (as_posix p) ≢ as_posix q)

    module _ (allowed : List Text) (apart : Apart allowed) where
      -- The entry's file has been taken out of the set.
      abbrev Placed : List Text → LogEntry → Type 0
      Placed files e =
          (f : Text) × (p : PurePath) × (contains allowed f ≡ true)
          × (contains files f ≡ false)
          × (host_path work_dir f ≡ some p)
          × (as_posix p ≡ e.path)

      -- Every entry tells what is on the host.
      pub record IsStored (d : Download) : Type 0 where
        pub files_allowed : (f : Text) → contains d.files f ≡ true → contains allowed f ≡ true
        pub logged_told : All (λ e. Placed d.files e × Told d.host e) d.logged

      removed-IsStored :
          (name : Text) (d : Download)
          → IsStored d
          → IsStored (record d { files = keep (λ f. not (f == name)) d.files })
      removed-IsStored name d a = record {
        files_allowed = λ f h.
            a.files_allowed f (ground (arith, contains-keep (λ f. not (f == name)) f d.files));
        logged_told =
            All-map _ _
              (λ e ((f, p, c, n, h, k), t). (
                (f, p, c, ground (arith, n, contains-keep (λ f. not (f == name)) f d.files), h, k),
                t,
              ))
              d.logged a.logged_told;
      }

      -- What an entry tells of another file's place is still so.
      Told-Stays :
          (name : Text) (p : PurePath) (files : List Text) (h h' : Host) (e : LogEntry)
          → contains allowed name ≡ true
          → contains files name ≡ true
          → host_path work_dir name ≡ some p
          → ((j : Text) → as_posix p ≢ j → temp_name digest (as_posix p) ≢ j → Stays j h h')
          → Placed files e
          → Told h e
          → Told h' e
      Told-Stays name p files h h' e c here k stays (f, q, c', n, k', at) (inl none_told) =
          inl none_told
      Told-Stays name p files h h' e c here k stays (f, q, c', n, k', at) (inr (b, there, md)) =
          let other : name ≢ f = λ same. cc (ap (contains files) same, here, n) in
          let (place, temp) = apart name f p q c c' other k k' in
          inr (b, stays e.path (rw at at place) (rw at at temp) _ there, md)

      SavedAs-IsStored :
          (name : Text) (p : PurePath) (d d' : Download)
          → contains d.files name ≡ true
          → host_path work_dir name ≡ some p
          → SavedAs (as_posix p) (record d { files = keep (λ f. not (f == name)) d.files }) d'
          → IsStored d
          → IsStored d'
      SavedAs-IsStored name p d d' here k (e, path, logged, files, told, stays) a =
          let rest : List Text = keep (λ f. not (f == name)) d.files in
          let removed : IsStored (record d { files = rest }) = removed-IsStored name d a in
          let c : contains allowed name ≡ true = a.files_allowed name here in
          let gone : contains rest name ≡ false =
            ground (arith, contains-keep (λ f. not (f == name)) name d.files) in
          record {
            files_allowed = λ f h. removed.files_allowed f (rw files at h);
            logged_told =
                rw (logged, files)
                  (All-append _ d.logged (e ∷ [])
                    (All-map _ _
                      (λ e' ((f, q, c', n, k', at), t). (
                        (
                          f,
                          q,
                          c',
                          ground (arith, n, contains-keep (λ f. not (f == name)) f d.files),
                          k',
                          at,
                        ),
                        Told-Stays name p d.files d.host d'.host e' c here k stays
                            (f, q, c', n, k', at) t,
                      ))
                      d.logged a.logged_told)
                    (((name, p, c, gone, k, sym path), told), tt));
          }

      step-IsStored :
          (base_path : PurePath) (m : Member) (d d' : Download)
          → step digest work_dir stats false base_path m d ≡ some d'
          → IsStored d
          → IsStored d'
      unfolding step
      step-IsStored base_path m d d' h a =
          let name : Text = as_posix (join_path (parent base_path) m.name) in
          let d₁ : Download = record d { files = keep (λ f. not (f == name)) d.files } in
          elim (Bool-cases (contains d.files name)) [
            | inr e ↦ let h' = rw e at h in let same : d ≡ d' = ground arith in rw (← same) a
            | inl e ↦
                let h' : save_at digest work_dir stats false (host_path work_dir name) m d₁
                    ≡ some d' =
                  rw e at h in
                elim (save_at-SavedAs (host_path work_dir name) m d₁ d' h') [
                  | inl same ↦ rw (← same) (removed-IsStored name d a)
                  | inr (p, k, saved) ↦ SavedAs-IsStored name p d d' e k saved a
                ]
          ]

      -- What the log tells of the host stays true over the loop.
      pub download_file_set-IsStored :
          (base_path : PurePath) (ms : List Member) (d d' : Download)
          → download_file_set digest work_dir stats false base_path ms d ≡ some d'
          → IsStored d
          → IsStored d'
      unfolding download_file_set
      download_file_set-IsStored base_path [] d d' h a =
          let same : d ≡ d' = ground arith in rw (← same) a
      download_file_set-IsStored base_path (m ∷ ms) d d' h a =
          elim (Option-cases (step digest work_dir stats false base_path m d)) [
            | inl e ↦ let h' = rw e at h in cc h'
            | inr (d₁, e) ↦
                download_file_set-IsStored base_path ms d₁ d' (rw e at h)
                  (step-IsStored base_path m d d₁ e a)
          ]
