-- ===== src/Configuration/Schema.antt =====
-- The schemas that src/config/env.validation.ts is built from, by what zod documents of them: the outcome
-- of a parse with its issues, texts and limits of numbers.
use Prim.Native.Char.{Char, code}
use lotus_build_server.Base.{
  ℕ, String, Bool, true, ◌&&◌, Option, none, some, List, [], ◌∷◌, ◌++◌, leb, nat_eq, if◌then◌else◌,
}
use lotus_build_server.Base.Text.{is_empty}

pub record Issue : Type 0 where
  pub path : List String
  pub message : String

-- The outcome of `safeParse`.
pub data Parsed {ℓ} (A : Type ℓ) : Type ℓ where
  parsed : A → Parsed A
  refused : List Issue → Parsed A

module _ {ℓ ℓ'} {A : Type ℓ} {B : Type ℓ'} where
  -- Fields are parsed side by side: the issues of all of them are kept.
  unfoldable pub combine : Parsed (A → B) → Parsed A → Parsed B
  combine (parsed f) (parsed a) = parsed (f a)
  combine (parsed f) (refused issues) = refused issues
  combine (refused issues) (parsed a) = refused issues
  combine (refused issues) (refused issues') = refused (issues ++ issues')

  abbrev pub chain : Option A → (A → Option B) → Option B
  chain none f = none
  chain (some a) f = f a

module _ {ℓ} {A : Type ℓ} where
  abbrev pub keep : (A → Bool) → A → Option A
  keep p a = if p a then some a else none

  abbrev pub settled : List Issue → Option A → Parsed A
  settled issues none = refused issues
  settled issues (some a) = parsed a

-- `z.string().min(1)`
abbrev pub required_text : Option String → Option String
required_text none = none
required_text (some s) = if is_empty s then none else some s

-- `value.split(',')`
is_comma : Char → Bool
is_comma c = nat_eq (code c) b','

push : Char → List String → List String
push c [] = String.◌∷◌ c "" ∷ []
push c (part ∷ parts) = String.◌∷◌ c part ∷ parts

unfoldable pub split_commas : String → List String
unfolding is_comma push
split_commas String.[] = "" ∷ []
split_commas (String.◌∷◌ c s) = if is_comma c then "" ∷ split_commas s else push c (split_commas s)

abbrev pub all : (String → Bool) → List String → Bool
all p [] = true
all p (s ∷ l) = p s && all p l

-- `z.coerce.number().int().min(low)`
abbrev pub at_least : ℕ → ℕ → Option ℕ
at_least low = keep (λ n. leb low n)

-- the same with `.max(high)`
abbrev pub between : ℕ → ℕ → ℕ → Option ℕ
between low high = keep (λ n. leb low n && leb n high)
