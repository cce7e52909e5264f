-- ===== src/Resolver/Listed.antt =====
-- The list of files that `FileResolver` of cincan/file_tool.py makes of a command line.
use cincan_command.Prelude.{
  Text, contains, contains-append, All, All-append, Distinct, Distinct-append, Distinct-keep, keep,
  Bool, Bool-cases, true, false, not, ◌&&◌, Option, Option-cases, none, some, List, [], ◌∷◌, ◌==◌,
  nat_eq, list_eq, bool_eq, ◌≡◌, refl, arith, inl, inr,
}
use cincan_command.Path.{PurePath, path_eq, parse, as_posix}
use cincan_command.Path.RoundTrip.{IsPart}
use cincan_command.Path.Parts.{parse-IsPart}
use cincan_command.Matcher.{FileMatcher, filter_upload_files, matches}
use cincan_command.Shlex.{split_command}
use cincan_command.Resolver.{
  Node, file, directory, Nodes, end, entry, Host, is_directory, nodes_of, Resolver, list_file,
  child, include_sub_dirs, include_below, archive_name_for, use_absolute_path, is_file_argument,
  list_existing, file_exists, modified_paths, add_argument, replace_all, split_argument,
  whole_or_split, analyze_argument, analyze, apply_filters, filtered, parse_all, file_resolver,
}

-- All names of a directory tree are parts of a path.
unfoldable mutual
  pub HasNames : Node → Type 0
  HasNames file = Unit
  HasNames (directory ns) = AllNames ns

  pub AllNames : Nodes → Type 0
  AllNames end = Unit
  AllNames (entry name node rest) = IsPart name × HasNames node × AllNames rest

-- The listed files are those of the list, none of them twice, and they are proper paths.
pub record IsListed (r : Resolver) : Type 0 where
  pub same : (f : PurePath) → contains r.host_files f ≡ contains r.already_listed f
  pub distinct : Distinct r.host_files
  pub proper : All (λ f. All IsPart f.parts) r.host_files

list_file-IsListed :
    (f : PurePath) (r : Resolver) → All IsPart f.parts → IsListed r → IsListed (list_file f r)
unfolding list_file
list_file-IsListed f r a l = elim (Bool-cases (contains r.already_listed f)) [
  | inl e ↦ rw e l
  | inr e ↦ rw e (record {
    same = λ g. ground (arith, l.same g, contains-append r.host_files (f ∷ []) g);
    distinct = Distinct-append f r.host_files (ground (arith, l.same f)) l.distinct;
    proper = All-append _ r.host_files (f ∷ []) l.proper (a, tt);
  })
]

child-IsPart :
    (p : PurePath) (name : Text)
    → All IsPart p.parts
    → IsPart name
    → All IsPart (child p name).parts
child-IsPart p name a n = All-append IsPart p.parts (name ∷ []) a (n, tt)

mutual
  unfolding include_sub_dirs include_below HasNames AllNames

  include_sub_dirs-IsListed :
      (p : PurePath) (ns : Nodes) (r : Resolver)
      → All IsPart p.parts
      → AllNames ns
      → IsListed r
      → IsListed (include_sub_dirs p ns r)
  include_sub_dirs-IsListed p end r a n l = l
  include_sub_dirs-IsListed p (entry name node rest) r a n l =
      let b = child-IsPart p name a n.0 in
      include_sub_dirs-IsListed p rest _ a n.2 (
        include_below-IsListed (child p name) node (list_file (child p name) r) b n.1
          (list_file-IsListed (child p name) r b l))

  include_below-IsListed :
      (p : PurePath) (node : Node) (r : Resolver)
      → All IsPart p.parts
      → HasNames node
      → IsListed r
      → IsListed (include_below p node r)
  include_below-IsListed p file r a n l = l
  include_below-IsListed p (directory ns) r a n l = include_sub_dirs-IsListed p ns r a n l

-- What the code relies on: the names of the host's directories and resolved paths are proper.
pub record IsProper (h : Host) : Type 0 where
  pub names : (p : PurePath) → AllNames (nodes_of (h.look p))
  pub resolved_parts : (p : PurePath) → All IsPart (h.resolve p).parts

module _ (h : Host) (good : IsProper h) (output_dirs : List PurePath) where
  archive_name_for-IsPart :
      (p : PurePath) → All IsPart p.parts → All IsPart (archive_name_for h p).0.parts
  unfolding archive_name_for
  archive_name_for-IsPart p a = elim (Bool-cases (use_absolute_path p)) [
    | inl e ↦ rw e (good.resolved_parts p)
    | inr e ↦ rw e a
  ]

  list_existing-IsListed :
      (p f : PurePath) (r : Resolver)
      → All IsPart p.parts
      → All IsPart f.parts
      → IsListed r
      → IsListed (list_existing h output_dirs p f r)
  unfolding list_existing
  list_existing-IsListed p f r a b l =
      elim (Bool-cases (is_directory (h.look p) && not (contains output_dirs p))) [
        | inl e ↦ rw e (
            include_sub_dirs-IsListed p (nodes_of (h.look p)) (list_file f r) a (good.names p)
              (list_file-IsListed f r b l))
        | inr e ↦ rw e (list_file-IsListed f r b l)
      ]

  file_exists-IsListed :
      (path : Text) (parent_check : Bool) (r : Resolver)
      → IsListed r
      → IsListed (file_exists h output_dirs path parent_check r).1
  unfolding file_exists
  file_exists-IsListed path parent_check r l =
      let p : PurePath = parse path in
      let a = parse-IsPart path in
      elim (Bool-cases (is_file_argument h output_dirs path parent_check r)) [
        | inl e ↦
            rw e (
              list_existing-IsListed p (archive_name_for h p).0 r a (archive_name_for-IsPart p a) l)
        | inr e ↦ rw e l
      ]

  modified_paths-IsListed :
      (parts : List Text) (r : Resolver)
      → IsListed r
      → IsListed (modified_paths h output_dirs parts r).1
  unfolding modified_paths
  modified_paths-IsListed [] r l = l
  modified_paths-IsListed (part ∷ parts) r l =
      modified_paths-IsListed parts _ (file_exists-IsListed part true r l)

  -- From a list in order the action comes to one.
  abbrev Keeps : (Resolver → Option Resolver) → Type 0
  Keeps action = (r r' : Resolver) → action r ≡ some r' → IsListed r → IsListed r'

  add_argument-IsListed :
      (arg : Text) (r : Resolver) → IsListed r → IsListed (add_argument h output_dirs arg r)
  unfolding add_argument
  add_argument-IsListed arg r l = record { same = l.same; distinct = l.distinct; proper = l.proper }

  split_argument-Keeps :
      (arg : Text) (o : Option (List Text)) → Keeps (λ r. split_argument h output_dirs arg r o)
  unfolding split_argument
  split_argument-Keeps arg none r r' e l = cc
  split_argument-Keeps arg (some parts) r r' e l =
      let (paths, r₁) = modified_paths h output_dirs parts r in
      let e' : add_argument h output_dirs (replace_all h output_dirs paths arg) r₁ ≡ r' =
        ground arith in
      rw (← e') (
        add_argument-IsListed (replace_all h output_dirs paths arg) r₁
          (modified_paths-IsListed parts r l))

  whole_or_split-Keeps : (arg : Text) (o : Option Text) → Keeps (whole_or_split h output_dirs arg o)
  unfolding whole_or_split
  whole_or_split-Keeps arg none r r' e l = split_argument-Keeps arg (split_command arg) r r' e l
  whole_or_split-Keeps arg (some a) r r' e l = elim (Bool-cases (a == [])) [
    | inl k ↦ split_argument-Keeps arg (split_command arg) r r' (rw k at e) l
    | inr k ↦
        let e' : some (add_argument h output_dirs a r) ≡ some r' = rw k at e in
        let e'' : add_argument h output_dirs a r ≡ r' = cc e' in
        rw (← e'') (add_argument-IsListed a r l)
  ]

  analyze-Keeps : (args : List Text) → Keeps (analyze h output_dirs args)
  unfolding analyze analyze_argument
  analyze-Keeps [] r r' e l = let e' : r ≡ r' = cc e in rw (← e') l
  analyze-Keeps (arg ∷ args) r r' e l =
      let (a_name, r₁) = file_exists h output_dirs arg false r in
      elim (Option-cases (whole_or_split h output_dirs arg a_name r₁)) [
        | inl k ↦ let e' = rw k at e in cc e'
        | inr (r₂, k) ↦
            analyze-Keeps args r₂ r' (rw k at e)
              (whole_or_split-Keeps arg a_name r₁ r₂ k (file_exists-IsListed arg false r l))
      ]

abbrev pub InOrder : List PurePath → Type 0
InOrder fs = Distinct fs × All (λ f. All IsPart f.parts) fs

All-keep {ℓ κ} :
    {A : Type ℓ} (P : A → Type κ) (t : A → Bool) (xs : List A) → All P xs → All P (keep t xs)
All-keep P t [] h = tt
All-keep P t (x ∷ xs) h = elim (Bool-cases (t x)) [
  | inl e ↦ rw e (h.0, All-keep P t xs h.1)
  | inr e ↦ rw e (All-keep P t xs h.1)
]

apply_filters-InOrder :
    (ms : List FileMatcher) (fs : List PurePath) → InOrder fs → InOrder (apply_filters ms fs)
unfolding apply_filters filter_upload_files
apply_filters-InOrder [] fs o = o
apply_filters-InOrder (m ∷ ms) fs o = apply_filters-InOrder ms _ (
  Distinct-keep (λ f. matches m (as_posix f) == m.include) fs o.0,
  All-keep _ (λ f. matches m (as_posix f) == m.include) fs o.1,
)

parse_all-IsPart : (vs : List Text) → All (λ f. All IsPart f.parts) (parse_all vs)
parse_all-IsPart [] = tt
parse_all-IsPart (v ∷ vs) = (parse-IsPart v, parse_all-IsPart vs)

-- Whatever the command line, no file of the host is listed twice, and all are proper paths, if no
-- output directory is given twice and the host's names and resolved paths are proper.
pub file_resolver-InOrder :
    (h : Host) (args output_dirs : List Text) (do_resolve : Bool) (input_filters : List FileMatcher)
    (r : Resolver)
    → IsProper h
    → Distinct (parse_all output_dirs)
    → file_resolver h args output_dirs do_resolve input_filters ≡ some r
    → InOrder r.host_files
unfolding file_resolver filtered
file_resolver-InOrder h args output_dirs false ms r good d e =
    let e' : parse_all output_dirs ≡ r.host_files = ground (arith, e) in
    rw (← e') (d, parse_all-IsPart output_dirs)
file_resolver-InOrder h args output_dirs true ms r good d e =
    let dirs : List PurePath = parse_all output_dirs in
    let r₀ : Resolver = record { host_files = dirs; already_listed = dirs; command_args = [] } in
    elim (Option-cases (analyze h dirs args r₀)) [
      | inl k ↦ let e' = rw k at e in cc e'
      | inr (r₁, k) ↦
          let l =
            analyze-Keeps h good dirs args r₀ r₁ k
              (record { same = λ f. refl; distinct = d; proper = parse_all-IsPart output_dirs }) in
          let e' : apply_filters ms r₁.host_files ≡ r.host_files =
            let k' = rw k at e in ground (arith, k') in
          rw (← e') (apply_filters-InOrder ms r₁.host_files (l.distinct, l.proper))
    ]
