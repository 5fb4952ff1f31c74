-- ===== src/ApiKeys/Prefix.antt =====
-- The prefix of a secret.
use text.Mathlib.TextLemmas.{nil-append, cons-append}
use lotus_build_server.Base.{ℕ, zero, suc, String, ◌<>◌, ◌≡◌, ◌≢◌, refl, ap, false, some}
use lotus_build_server.ApiKeys.Secret.{is_dot, index_of_dot, slice_to, secret_prefix}

abbrev pub NoDot : String → Type 0
NoDot String.[] = Unit
NoDot (String.◌∷◌ c s) = (is_dot c ≡ false) × NoDot s

abbrev size : String → ℕ
size String.[] = zero
size (String.◌∷◌ c s) = suc (size s)

pub NoDot-append : (s t : String) → NoDot s → NoDot t → NoDot (s <> t)
NoDot-append String.[] t p q = rw nil-append q
NoDot-append (String.◌∷◌ c s) t p q = rw cons-append (p.0, NoDot-append s t p.1 q)

index_of_dot_plain : (s t : String) → NoDot s → index_of_dot (s <> "." <> t) ≡ some (size s)
unfolding index_of_dot
index_of_dot_plain String.[] t p = rw (nil-append, cons-append) refl
index_of_dot_plain (String.◌∷◌ c s) t p = rw (cons-append, p.0, index_of_dot_plain s t p.1) refl

slice_to-append : (s t : String) → slice_to (size s) (s <> t) ≡ s
unfolding slice_to
slice_to-append String.[] t = refl
slice_to-append (String.◌∷◌ c s) t = rw (cons-append, slice_to-append s t) refl

-- A text without a dot is what stands before the dot that is put behind it, unless it is empty.
pub secret_prefix_plain : (s t : String) → NoDot s → s ≢ "" → secret_prefix (s <> "." <> t) ≡ some s
unfolding secret_prefix
secret_prefix_plain String.[] t p e = absurd (e refl)
secret_prefix_plain (String.◌∷◌ c s) t p e =
    rw (index_of_dot_plain (String.◌∷◌ c s) t p)
      (ap some (slice_to-append (String.◌∷◌ c s) ("." <> t)))
