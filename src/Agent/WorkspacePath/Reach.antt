-- ===== src/Agent/WorkspacePath/Reach.antt =====
-- Which files `resolveWorkspacePath` (src/agent/tools/workspace-path.ts) reaches.
use mathlib.Core.List.{append-nil, reverse_aux, reverse_aux-reverse_aux-nil}
use text.Mathlib.Text.{starts_with}
use text.Mathlib.TextEquality.{starts_with_iff}
use text.Mathlib.TextLemmas.{cons-append, append_assoc}
use lotus_build_server.Base.{
  String, ◌<>◌, ◌≡◌, refl, sym, ap, ◌∙◌, Bool, true, false, List, [], ◌∷◌, ◌++◌, arith, All-append,
  eq_iff, All, if◌then◌else◌,
}
use mathlib.Core.List
use lotus_build_server.Base.Text.{join, is_empty}
use lotus_build_server.World.Exec.{ok}
use lotus_build_server.Agent.WorkspacePath.{
  is_absolute, ends_in_slash, step, walk, normalize_string, normalize, resolve,
  resolve_workspace_path, with_trailing,
}
use lotus_build_server.Agent.WorkspacePath.Parts.{split, split-slash, split-join}
use lotus_build_server.Agent.WorkspacePath.Containment.{
  IsPlain, rooted, split-rooted, All-plain-slash,
}

step_of_IsPlain :
    (a : Bool) (stack : List String) (part : String)
    → IsPlain part
    → step a stack part ≡ part ∷ stack
unfolding step
step_of_IsPlain a stack part h = ground (arith, eq_iff part "", eq_iff part ".", eq_iff part "..")

walk_of_IsPlain :
    (a : Bool) (stack parts more : List String)
    → All IsPlain parts
    → walk a stack (parts ++ more) ≡ walk a (reverse_aux parts stack) more
unfolding walk
walk_of_IsPlain a stack [] more h = refl
walk_of_IsPlain a stack (p ∷ parts) more h =
    ap (λ (st : List String). walk a st (parts ++ more)) (step_of_IsPlain a stack p h.0)
    ∙ walk_of_IsPlain a (p ∷ stack) parts more h.1

-- The empty part behind a last slash changes nothing.
walk_trailing :
    (a : Bool) (parts : List String) → All IsPlain parts → walk a [] (parts ++ "" ∷ []) ≡ parts
unfolding walk step
walk_trailing a parts h =
    walk_of_IsPlain a [] parts ("" ∷ []) h ∙ reverse_aux-reverse_aux-nil parts []

walk_plain : (a : Bool) (parts : List String) → All IsPlain parts → walk a [] parts ≡ parts
unfolding walk
walk_plain a parts h =
    ap (walk a []) (sym (append-nil parts))
    ∙ walk_of_IsPlain a [] parts [] h
    ∙ reverse_aux-reverse_aux-nil parts []

pub join-append :
    (b : String) (base : List String) (s : String) (parts : List String)
    → join "/" (b ∷ base ++ s ∷ parts) ≡ join "/" (b ∷ base) <> "/" <> join "/" (s ∷ parts)
join-append b [] s parts = refl
join-append b (c ∷ base) s parts =
    ap (λ (t : String). b <> "/" <> t) (join-append c base s parts) ∙ simp append_assoc

-- A plain relative path begins with a character that is no slash.
relative_head :
    (s : String) (parts : List String)
    → All IsPlain (s ∷ parts)
    → (is_absolute (join "/" (s ∷ parts)) ≡ false) × (is_empty (join "/" (s ∷ parts)) ≡ false)
unfolding is_absolute
relative_head String.[] parts h = absurd (h.0.0 refl)
relative_head (String.◌∷◌ c s) [] h = (h.0.3.0, refl)
relative_head (String.◌∷◌ c s) (t ∷ parts) h = rw cons-append (h.0.3.0, refl)

head-append :
    (s t : String)
    → (is_absolute s ≡ false) × (is_empty s ≡ false)
    → (is_absolute (s <> t) ≡ false) × (is_empty (s <> t) ≡ false)
unfolding is_absolute
head-append String.[] t h = cc
head-append (String.◌∷◌ c s) t h = rw cons-append (h.0, refl)

module _ (b : String) (base : List String) (hb : All IsPlain (b ∷ base)) (s : String)
    (parts : List String) (h : All IsPlain (s ∷ parts)) where
  abbrev relative : String
  relative = join "/" (s ∷ parts)

  relative_clean : normalize_string true relative ≡ relative
  unfolding normalize_string
  relative_clean =
      ap (λ (l : List String). join "/" (walk true [] l))
        (split-join s parts (All-plain-slash (s ∷ parts) h))
      ∙ ap (join "/") (walk_plain true (s ∷ parts) h)

  normalize-relative : (t : Bool) × (normalize relative ≡ with_trailing t relative)
  unfolding normalize
  normalize-relative =
      (ends_in_slash relative, ground (arith, relative_head s parts h, relative_clean))

  abbrev target : List String
  target = b ∷ base ++ s ∷ parts

  target-IsPlain : All IsPlain target
  target-IsPlain = All-append IsPlain (b ∷ base) (s ∷ parts) hb h

  -- The parts that `resolve` walks over: those of the workspace, those of the path, and an empty one
  -- if there is a slash at the end.
  split-target :
      (t : Bool)
      → split (rooted (b ∷ base) <> "/" <> with_trailing t relative)
        ≡ "" ∷ (target ++ (if t then "" ∷ [] else []))
  unfolding split
  split-target true =
      split-slash (rooted (b ∷ base)) (relative <> "/" <> "")
      ∙ ap (λ (l : List String). split (rooted (b ∷ base)) ++ l) (split-slash relative "")
      ∙ ap (λ (l : List String). l ++ (split relative ++ "" ∷ [])) (split-rooted b base hb)
      ∙ ap (λ (l : List String). "" ∷ b ∷ base ++ (l ++ "" ∷ []))
          (split-join s parts (All-plain-slash (s ∷ parts) h))
      ∙ sym (List.append_assoc ("" ∷ b ∷ base) (s ∷ parts) ("" ∷ []))
  split-target false =
      split-slash (rooted (b ∷ base)) relative
      ∙ ap (λ (l : List String). l ++ split relative) (split-rooted b base hb)
      ∙ ap (λ (l : List String). "" ∷ b ∷ base ++ l)
          (split-join s parts (All-plain-slash (s ∷ parts) h))
      ∙ sym (append-nil ("" ∷ target))

  walk-target : (t : Bool) → walk false [] ("" ∷ (target ++ (if t then "" ∷ [] else []))) ≡ target
  unfolding walk step
  walk-target true = walk_trailing false target target-IsPlain
  walk-target false =
      ap (walk false []) (append-nil target) ∙ walk_plain false target target-IsPlain

  with_trailing_head :
      (t : Bool)
      → (is_absolute (with_trailing t relative) ≡ false)
        × (is_empty (with_trailing t relative) ≡ false)
  with_trailing_head true = head-append relative "/" (relative_head s parts h)
  with_trailing_head false = relative_head s parts h

  resolve-relative : resolve (rooted (b ∷ base)) (normalize relative) ≡ rooted target
  unfolding resolve
  resolve-relative =
      let (t, e) = normalize-relative in
      let (relative_path, full) = with_trailing_head t in
      rw (e, relative_path, full) (ap rooted (ap (walk false []) (split-target t) ∙ walk-target t))

  below_base : starts_with (rooted target) (rooted (b ∷ base) <> "/") ≡ true
  below_base = (starts_with_iff (rooted target) (rooted (b ∷ base) <> "/")).1 (
    relative,
    append_assoc (rooted (b ∷ base)) "/" relative
        ∙ append_assoc "/" (join "/" (b ∷ base)) ("/" <> relative)
        ∙ ap (λ (t : String). "/" <> t) (sym (join-append b base s parts)),
  )

  -- A relative path of plain parts is let through, and names the file at those parts below the
  -- workspace directory.
  pub resolve_workspace_path_plain :
      resolve_workspace_path (rooted (b ∷ base)) (join "/" (s ∷ parts))
      ≡ ok (rooted (b ∷ base ++ s ∷ parts))
  unfolding resolve_workspace_path
  resolve_workspace_path_plain =
      ground (arith, resolve-relative, below_base, relative_head s parts h)
