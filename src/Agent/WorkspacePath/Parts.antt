-- ===== src/Agent/WorkspacePath/Parts.antt =====
-- The parts of a path between its slashes, and the laws of splitting and joining.
use Prim.Native.Char.{Char, code}
use text.Mathlib.TextLemmas.{nil-append, cons-append}
use lotus_build_server.Base.{
  String, ◌<>◌, ◌≡◌, refl, ap, ◌∙◌, ◌≢◌, Bool, false, List, [], ◌∷◌, ◌++◌, nat_eq, if◌then◌else◌,
  Bool-cases, inl, inr, All,
}
use lotus_build_server.Base.Text.{join}

abbrev pub is_slash : Char → Bool
is_slash c = nat_eq (code c) b'/'

abbrev pub push : Char → List String → List String
push c [] = String.◌∷◌ c "" ∷ []
push c (part ∷ parts) = String.◌∷◌ c part ∷ parts

unfoldable pub split : String → List String
split String.[] = "" ∷ []
split (String.◌∷◌ c s) = if is_slash c then "" ∷ split s else push c (split s)

abbrev pub NoSlash : String → Type 0
NoSlash String.[] = Unit
NoSlash (String.◌∷◌ c s) = (is_slash c ≡ false) × NoSlash s

split_of_NoSlash : (s : String) → NoSlash s → split s ≡ s ∷ []
unfolding split
split_of_NoSlash String.[] h = refl
split_of_NoSlash (String.◌∷◌ c s) h = rw (h.0, split_of_NoSlash s h.1)

push-append : (c : Char) (xs ys : List String) → xs ≢ [] → push c (xs ++ ys) ≡ push c xs ++ ys
push-append c [] ys h = absurd (h refl)
push-append c (x ∷ xs) ys h = refl

push-ne-nil : (c : Char) (xs : List String) → push c xs ≢ []
push-ne-nil c [] e = cc
push-ne-nil c (x ∷ xs) e = cc

split-ne-nil : (s : String) → split s ≢ []
unfolding split
split-ne-nil String.[] = λ e. cc
split-ne-nil (String.◌∷◌ c s) = elim (Bool-cases (is_slash c)) [
  | inl slash ↦ rw slash (λ e. cc)
  | inr plain ↦ rw plain (push-ne-nil c (split s))
]

split-cons :
    (c : Char) (s t : String)
    → split (s <> "/" <> t) ≡ split s ++ split t
    → split (String.◌∷◌ c (s <> "/" <> t)) ≡ split (String.◌∷◌ c s) ++ split t
unfolding split
split-cons c s t ih = elim (Bool-cases (is_slash c)) [
  | inl slash ↦ rw slash (ap (λ (l : List String). "" ∷ l) ih)
  | inr plain ↦ rw plain (ap (push c) ih ∙ push-append c (split s) (split t) (split-ne-nil s))
]

-- The parts before a slash, then those behind it.
pub split-slash : (s t : String) → split (s <> "/" <> t) ≡ split s ++ split t
unfolding split
split-slash String.[] t = rw (nil-append, cons-append, nil-append)
split-slash (String.◌∷◌ c s) t =
    ap split (cons-append c s ("/" <> t)) ∙ unfold split in split-cons c s t (split-slash s t)

pub split-join :
    (s : String) (parts : List String)
    → All NoSlash (s ∷ parts)
    → split (join "/" (s ∷ parts)) ≡ s ∷ parts
split-join s [] h = split_of_NoSlash s h.0
split-join s (t ∷ parts) h =
    split-slash s (join "/" (t ∷ parts)) ∙ rw (split_of_NoSlash s h.0, split-join t parts h.1)

push-NoSlash :
    (c : Char) (xs : List String) → is_slash c ≡ false → All NoSlash xs → All NoSlash (push c xs)
push-NoSlash c [] e h = ((e, tt), tt)
push-NoSlash c (x ∷ xs) e h = ((e, h.0), h.1)

-- No part of a split holds a slash.
pub split-NoSlash : (s : String) → All NoSlash (split s)
unfolding split
split-NoSlash String.[] = (tt, tt)
split-NoSlash (String.◌∷◌ c s) = elim (Bool-cases (is_slash c)) [
  | inl slash ↦ rw slash (tt, split-NoSlash s)
  | inr plain ↦ rw plain (push-NoSlash c (split s) plain (split-NoSlash s))
]
