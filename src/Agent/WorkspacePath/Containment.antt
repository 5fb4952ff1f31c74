-- ===== src/Agent/WorkspacePath/Containment.antt =====
-- What `resolveWorkspacePath` (src/agent/tools/workspace-path.ts) lets through: the proofs read a path
-- as its parts.
use mathlib.Core.Path.{subst}
use mathlib.Core.List.{append-nil, reverse_aux}
use text.Mathlib.Text.{starts_with}
use text.Mathlib.TextEquality.{starts_with_iff}
use text.Mathlib.TextLemmas.{nil-append, append_assoc}
use lotus_build_server.Base.{
  String, ◌<>◌, ◌≡◌, refl, sym, ap, ◌∙◌, ◌≢◌, ◌⊎◌, inl, inr, true, false, List, [], ◌∷◌, ◌++◌,
  arith, eq_iff, All, Bool-cases,
}
use lotus_build_server.Base.Text.{join, is_empty}
use lotus_build_server.World.Exec.{ok}
use lotus_build_server.Agent.WorkspacePath.{
  is_absolute, pop, step, walk, normalize, resolve, resolve_workspace_path,
}
use lotus_build_server.Agent.WorkspacePath.Parts.{
  NoSlash, split, split-slash, split-join, split-NoSlash,
}

-- A part that names an entry of a directory: not empty, not "." or "..", and with no slash.
abbrev pub IsPlain : String → Type 0
IsPlain part = (part ≢ "") × (part ≢ ".") × (part ≢ "..") × NoSlash part

-- The absolute path of a list of parts.
abbrev pub rooted : List String → String
rooted parts = "/" <> join "/" parts

-- The path lies at or below the directory of `base`: its parts are those of `base` and plain ones.
abbrev pub Contained : List String → String → Type 0
Contained base path = (rest : List String) × (path ≡ rooted (base ++ rest)) × All IsPlain rest

step-IsPlain :
    (stack : List String) (part : String)
    → All IsPlain stack
    → NoSlash part
    → All IsPlain (step false stack part)
unfolding step pop
step-IsPlain [] part h k = ground (arith, eq_iff part "", eq_iff part ".", eq_iff part "..")
step-IsPlain (top ∷ stack) part h k =
    ground (arith, eq_iff part "", eq_iff part ".", eq_iff part "..", eq_iff top "..")

All-reverse_aux :
    (xs ys : List String) → All IsPlain xs → All IsPlain ys → All IsPlain (reverse_aux xs ys)
All-reverse_aux [] ys h k = k
All-reverse_aux (x ∷ xs) ys h k = All-reverse_aux xs (x ∷ ys) h.1 (h.0, k)

-- Where no part above the start is kept, the walk leaves plain parts only.
walk-IsPlain :
    (stack parts : List String)
    → All IsPlain stack
    → All NoSlash parts
    → All IsPlain (walk false stack parts)
unfolding walk
walk-IsPlain stack [] h k = All-reverse_aux stack [] h tt
walk-IsPlain stack (part ∷ parts) h k =
    walk-IsPlain (step false stack part) parts (step-IsPlain stack part h k.0) k.1

pub All-plain-slash : (parts : List String) → All IsPlain parts → All NoSlash parts
All-plain-slash [] h = tt
All-plain-slash (p ∷ parts) h = (h.0.3, All-plain-slash parts h.1)

split_absolute : (s : String) → split ("/" <> s) ≡ "" ∷ split s
unfolding split
split_absolute s = sym (ap split (nil-append ("/" <> s))) ∙ split-slash "" s

pub split-rooted :
    (s : String) (parts : List String)
    → All IsPlain (s ∷ parts)
    → split (rooted (s ∷ parts)) ≡ "" ∷ s ∷ parts
split-rooted s parts h =
    split_absolute (join "/" (s ∷ parts))
    ∙ ap (λ (l : List String). "" ∷ l) (split-join s parts (All-plain-slash (s ∷ parts) h))

split_below :
    (b : String) (base : List String) (u : String)
    → All IsPlain (b ∷ base)
    → split ((rooted (b ∷ base) <> "/") <> u) ≡ "" ∷ b ∷ (base ++ split u)
split_below b base u h =
    ap split (append_assoc (rooted (b ∷ base)) "/" u)
    ∙ split-slash (rooted (b ∷ base)) u
    ∙ ap (λ (l : List String). l ++ split u) (split-rooted b base h)

split_root : split (rooted []) ≡ "" ∷ "" ∷ []
unfolding split
split_root = refl

All-append_right : (xs ys : List String) → All IsPlain (xs ++ ys) → All IsPlain ys
All-append_right [] ys h = h
All-append_right (x ∷ xs) ys h = All-append_right xs ys h.1

-- A rooted path of plain parts whose text begins with the directory's lies in that directory.
Contained-of_parts :
    (b : String) (base parts : List String)
    → All IsPlain (b ∷ base)
    → All IsPlain parts
    → (u : String) → (rooted (b ∷ base) <> "/") <> u ≡ rooted parts
    → Contained (b ∷ base) (rooted parts)
Contained-of_parts b base [] hb h u e =
    absurd (hb.0.0 (ground (arith, split_below b base u hb, ap split e, split_root)))
Contained-of_parts b base (p ∷ parts) hb h u e =
    let same : (p ∷ parts) ≡ b ∷ base ++ split u =
      ground (arith, split_below b base u hb, ap split e, split-rooted p parts h) in
    (
      split u,
      ap rooted same,
      All-append_right (b ∷ base) (split u) (subst (λ (l : List String). All IsPlain l) same h),
    )

-- A rooted path of plain parts that is the directory itself.
Contained-of_eq :
    (b : String) (base parts : List String)
    → rooted parts ≡ rooted (b ∷ base)
    → Contained (b ∷ base) (rooted parts)
Contained-of_eq b base parts e = ([], rw append-nil e, tt)

walked :
    (path : String)
    → (parts : List String) × (rooted (walk false [] (split path)) ≡ rooted parts)
      × All IsPlain parts
walked path =
    (walk false [] (split path), refl, walk-IsPlain [] (split path) tt (split-NoSlash path))

resolve_walk :
    (from to : String)
    → (parts : List String) × (resolve from to ≡ rooted parts) × All IsPlain parts
unfolding resolve
resolve_walk from to = elim (Bool-cases (is_empty to)) [
  | inl empty ↦ rw empty (walked from)
  | inr full ↦ rw full (elim (Bool-cases (is_absolute to)) [
    | inl absolute ↦ rw absolute (walked to)
    | inr relative ↦ rw relative (walked (from <> "/" <> to))
  ])
]

-- What passed the two tests of the code.
accepted :
    (dir relative_path : String) {path : String}
    → resolve_workspace_path dir relative_path ≡ ok path
    → (resolve dir (normalize relative_path) ≡ path)
      × ((path ≡ dir) ⊎ (starts_with path (dir <> "/") ≡ true))
unfolding resolve_workspace_path
accepted dir relative_path e = ground (arith, eq_iff (resolve dir (normalize relative_path)) dir)

-- Whatever the relative path, a path that is let through lies at or below the workspace directory,
-- which is given by its plain parts.
pub resolve_workspace_path-Contained :
    (b : String) (base : List String) (relative_path : String) {path : String}
    → All IsPlain (b ∷ base)
    → resolve_workspace_path (rooted (b ∷ base)) relative_path ≡ ok path
    → Contained (b ∷ base) path
resolve_workspace_path-Contained b base relative_path {path} hb e =
    let (parts, walked_path, plain) = resolve_walk (rooted (b ∷ base)) (normalize relative_path) in
    let (found, cases) = accepted (rooted (b ∷ base)) relative_path e in
    let here : rooted parts ≡ path = sym walked_path ∙ found in
    subst (λ (p : String). Contained (b ∷ base) p) here
      (elim cases [
        | inl same ↦ Contained-of_eq b base parts (here ∙ same)
        | inr below ↦
            let (u, prefix) = (starts_with_iff path (rooted (b ∷ base) <> "/")).0 below in
            Contained-of_parts b base parts hb plain u (prefix ∙ sym here)
      ])
