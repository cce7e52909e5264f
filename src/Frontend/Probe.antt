-- ===== src/Frontend/Probe.antt =====
-- The containers that `ToolImage._detect_shell` of cincan/frontend.py creates to look for a shell.
use cincan_command.Prelude.{
  ℕ, ◌+◌, Text, contains, any, length, Bool, true, false, not, ◌&&◌, List, [], ◌∷◌, nat_eq, list_eq,
  ◌≡◌, Bool-cases, inl, inr, refl, ◌∙◌, arith, if◌then◌else◌,
}
use cincan_command.Frontend.{first_shell, detect_shell}

-- The containers created so far, those of them that are not removed, and whether the user is told
-- that the given shell was not found
pub record Containers : Type 0 where
  pub created : ℕ
  pub left : ℕ
  pub warned : Bool

-- The loop over the shells: a container is removed only where the shell is found in it.
try_shells : (Text → Bool) → Bool → List Text → Containers → Text × Containers
try_shells has provided [] c = ([], c)
try_shells has provided (s ∷ shells) c =
    let rest = try_shells has false shells (record {
      created = c.created + 1;
      left = c.left + 1;
      warned = if provided then true else c.warned;
    }) in
    if has s then (s, record c { created = c.created + 1 }) else rest

-- `_detect_shell` with its effects
unfoldable pub probe : (Text → Bool) → Text → List Text → Text × Containers
unfolding try_shells
probe has shell default_shells =
    let none_yet : Containers = record { created = 0; left = 0; warned = false } in
    if contains default_shells shell
    then try_shells has false default_shells none_yet
    else try_shells has true (shell ∷ default_shells) none_yet

-- The shells before the first that the image has
unfoldable pub missed : (Text → Bool) → List Text → List Text
missed has [] = []
missed has (s ∷ shells) = if has s then [] else s ∷ missed has shells

-- The shells in the order in which they are tried
unfoldable pub tried : Text → List Text → List Text
tried shell default_shells =
    if contains default_shells shell then default_shells else shell ∷ default_shells

try_shells_lem :
    (has : Text → Bool) (provided : Bool) (shells : List Text) (c : Containers)
    → let r = try_shells has provided shells c in
      (r.0 ≡ first_shell has shells)
      × (r.1.left ≡ c.left + length (missed has shells))
      × (r.1.created ≡ c.created + length (missed has shells) + (if any has shells then 1 else 0))
unfolding try_shells first_shell missed
try_shells_lem has provided [] c = (ground arith, ground arith, ground arith)
try_shells_lem has provided (s ∷ shells) c =
    let c' : Containers = record {
      created = c.created + 1;
      left = c.left + 1;
      warned = if provided then true else c.warned;
    } in
    let h = try_shells_lem has false shells c' in
    elim (Bool-cases (has s)) [
      | inl y ↦ rw y (refl, ground arith, ground arith)
      | inr n ↦ rw n (h.0, h.1 ∙ ground arith, h.2 ∙ ground arith)
    ]

try_shells-warned :
    (has : Text → Bool) (shells : List Text) (c : Containers)
    → (try_shells has false shells c).1.warned ≡ c.warned
unfolding try_shells
try_shells-warned has [] c = refl
try_shells-warned has (s ∷ shells) c = elim (Bool-cases (has s)) [
  | inl y ↦ rw y refl
  | inr n ↦ rw n (
      try_shells-warned has shells
        (record { created = c.created + 1; left = c.left + 1; warned = c.warned }))
]

try_shells-provided :
    (has : Text → Bool) (s : Text) (shells : List Text) (c : Containers)
    → (try_shells has true (s ∷ shells) c).1.warned ≡ (if has s then c.warned else true)
unfolding try_shells
try_shells-provided has s shells c = elim (Bool-cases (has s)) [
  | inl y ↦ rw y refl
  | inr n ↦ rw n (
      try_shells-warned has shells
        (record { created = c.created + 1; left = c.left + 1; warned = true }))
]

-- The search creates one container for every shell that the image has not, before the first that it
-- has, and leaves all of these behind; the container in which the shell is found is removed. It
-- finds the shell that `detect_shell` tells, and the user is told of it if the given shell is not
-- among the configured ones and the image has it not.
pub probe_lem :
    (has : Text → Bool) (shell : Text) (default_shells : List Text)
    → let (found, c) = probe has shell default_shells in
      let shells = tried shell default_shells in
      (found ≡ detect_shell has shell default_shells)
      × (c.left ≡ length (missed has shells))
      × (c.created ≡ c.left + (if any has shells then 1 else 0))
      × (c.warned ≡ (not (contains default_shells shell) && not (has shell)))
unfolding probe tried detect_shell
probe_lem has shell default_shells =
    let c : Containers = record { created = 0; left = 0; warned = false } in
    elim (Bool-cases (contains default_shells shell)) [
      | inl y ↦
          let h = try_shells_lem has false default_shells c in
          rw y (h.0, h.1 ∙ ground arith, ground (arith, h), try_shells-warned has default_shells c)
      | inr n ↦
          let h = try_shells_lem has true (shell ∷ default_shells) c in
          rw n (
            h.0,
            h.1 ∙ ground arith,
            ground (arith, h),
            try_shells-provided has shell default_shells c ∙ ground arith,
          )
    ]
