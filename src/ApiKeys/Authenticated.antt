-- ===== src/ApiKeys/Authenticated.antt =====
-- Which secrets `authenticate` of src/api-keys/api-keys.service.ts lets through.
use lotus_build_server.Base.{
  ℕ, String, ◌≡◌, ◌≢◌, ◌⊎◌, inl, inr, refl, sym, ap, ◌∙◌, Bool, true, false, not, Option, none,
  some, List, [], ◌∷◌, is_some, arith, if◌then◌else◌, Bool-cases,
}
use lotus_build_server.World.Data.{Date, ApiKey}
use lotus_build_server.World.Calls.{PrismaCall, ApiKeyUpdate, prisma}
use lotus_build_server.World.Exec.{
  unauthorized, ok, throw, History, World, perform, act, new_date, pure, raise, >>=-eq-ok, ◌>>=◌,
  or_throw,
}
use lotus_build_server.World.Returns.{ok-injective}
use lotus_build_server.ApiKeys.{require_live, admit, authenticate}
use lotus_build_server.ApiKeys.Secret.{secret_prefix, from_hex, bytes_eq}

pub bytes_eq_refl : (bytes : List ℕ) → bytes_eq bytes bytes ≡ true
unfolding bytes_eq
bytes_eq_refl [] = refl
bytes_eq_refl (a ∷ bytes) = ground (arith, bytes_eq_refl bytes)

pub bytes_eq_sound : (as_ bs : List ℕ) → bytes_eq as_ bs ≡ true → as_ ≡ bs
unfolding bytes_eq
bytes_eq_sound [] [] e = refl
bytes_eq_sound [] (b ∷ bs) e = cc
bytes_eq_sound (a ∷ as_) [] e = cc
bytes_eq_sound (a ∷ as_) (b ∷ bs) e = let rest = bytes_eq_sound as_ bs in ground (arith, rest)

live :
    (revoked_at : Option Date) (other key : ApiKey) (h : History)
    → revoked_at ≡ other.revoked_at
    → ((if is_some revoked_at then raise (unauthorized "Invalid API key") else pure other) h).0
      ≡ ok key
    → (some other ≡ some key) × (key.revoked_at ≡ none)
live none other key h e₁ e₂ =
    let same = ok-injective other key e₂ in
    (ap some same, sym (e₁ ∙ ap (λ (k : ApiKey). k.revoked_at) same))
live (some at) other key h e₁ e₂ = cc

live_found :
    (found : Option ApiKey) (h : History) (key : ApiKey)
    → (require_live found h).0 ≡ ok key
    → (found ≡ some key) × (key.revoked_at ≡ none)
unfolding require_live
live_found none h key e = cc
live_found (some other) h key e = live other.revoked_at other key h refl e

module _ (w : World) (sha256 : String → String) where
  used :
      (key other : ApiKey) (h : History)
      → ((new_date w >>= λ at.
            act w (prisma (PrismaCall.api_key_update key.id (ApiKeyUpdate.used at))) >>= λ _.
            pure key)
          h).0
        ≡ ok other
      → key ≡ other
  used key other h e =
      let (at, _, e₁) = >>=-eq-ok (new_date w) _ h e in
      let (u, _, e₂) =
        >>=-eq-ok (act w (prisma (PrismaCall.api_key_update key.id (ApiKeyUpdate.used at)))) _ _
          e₁ in
      ok-injective key other e₂

  admitted_if :
      (equal : Bool) (key other : ApiKey) (h : History)
      → ((if not equal
            then raise (unauthorized "Invalid API key")
            else (new_date w >>= λ at.
                act w (prisma (PrismaCall.api_key_update key.id (ApiKeyUpdate.used at))) >>= λ _.
                pure key))
          h).0
        ≡ ok other
      → (key ≡ other) × (equal ≡ true)
  admitted_if true key other h e = (used key other h e, refl)
  admitted_if false key other h e = cc

  admitted :
      (secret : String) (key other : ApiKey) (h : History)
      → (admit w sha256 secret key h).0 ≡ ok other
      → (key ≡ other) × (from_hex (sha256 secret) ≡ from_hex key.hashed_secret)
  unfolding admit
  admitted secret key other h e =
      let (same, equal) = admitted_if (bytes_eq (from_hex (sha256 secret)) _) key other h e in
      (same, bytes_eq_sound _ _ equal)

  -- What is known of a key that is let through.
  abbrev pub Holds : String → History → ApiKey → String → Type 0
  Holds secret h key prefix =
      (secret_prefix secret ≡ some prefix)
      × (w.reply (prisma (PrismaCall.api_key_find_unique prefix)) h ≡ ok (some key))
      × (key.revoked_at ≡ none)
      × (from_hex (sha256 secret) ≡ from_hex key.hashed_secret)

  behind_prefix :
      (secret prefix : String) (h : History) (key : ApiKey)
      → secret_prefix secret ≡ some prefix
      → ((perform w (prisma (PrismaCall.api_key_find_unique prefix)) >>= λ found.
            require_live found >>= admit w sha256 secret)
          h).0
        ≡ ok key
      → Holds secret h key prefix
  unfolding perform
  behind_prefix secret prefix h key e₀ e =
      let (found, e₁, e₂) =
        >>=-eq-ok (perform w (prisma (PrismaCall.api_key_find_unique prefix))) _ _ e in
      let (other, e₃, e₄) = >>=-eq-ok (require_live found) _ _ e₂ in
      let (same, digest) = admitted secret other key _ e₄ in
      let (was_found, live) = live_found found _ other e₃ in
      (
        e₀,
        e₁ ∙ ap ok (was_found ∙ ap some same),
        ap (λ (k : ApiKey). k.revoked_at) (sym same) ∙ live,
        digest ∙ ap (λ (k : ApiKey). from_hex k.hashed_secret) same,
      )

  split_prefix :
      (found : Option String) (secret : String) (h : History) (key : ApiKey)
      → secret_prefix secret ≡ found
      → ((or_throw found (unauthorized "Malformed API key") >>= λ prefix.
            perform w (prisma (PrismaCall.api_key_find_unique prefix)) >>= λ found'.
            require_live found' >>= admit w sha256 secret)
          h).0
        ≡ ok key
      → (prefix : String) × Holds secret h key prefix
  split_prefix none secret h key e₀ e = cc
  split_prefix (some prefix) secret h key e₀ e = (prefix, behind_prefix secret prefix h key e₀ e)

  -- A secret is let through as a key only where it has a prefix before its first dot, the database
  -- replied with this key for the prefix, the key is not revoked, and its digest has the bytes of the
  -- secret's.
  pub authenticate_sound :
      (secret : String) (h : History) (key : ApiKey)
      → (authenticate w sha256 secret h).0 ≡ ok key
      → (prefix : String) × Holds secret h key prefix
  unfolding authenticate
  authenticate_sound secret h key e = split_prefix (secret_prefix secret) secret h key refl e

  -- Why a secret is refused, if it is, where the database replies with `found` for its prefix.
  abbrev pub IsRefused : String → Option ApiKey → Type 0
  IsRefused secret none = Unit
  IsRefused secret (some key) =
      (is_some key.revoked_at ≡ true) ⊎ (from_hex (sha256 secret) ≢ from_hex key.hashed_secret)

  unequal : (as_ bs : List ℕ) → as_ ≢ bs → bytes_eq as_ bs ≡ false
  unequal as_ bs ne = elim (Bool-cases (bytes_eq as_ bs)) [
    | inl equal ↦ absurd (ne (bytes_eq_sound as_ bs equal))
    | inr e ↦ e
  ]

  refused_found :
      (secret : String) (found : Option ApiKey) (h : History)
      → IsRefused secret found
      → (require_live found >>= admit w sha256 secret) h
        ≡ (throw (unauthorized "Invalid API key"), h)
  unfolding require_live admit
  refused_found secret none h refused = refl
  refused_found secret (some key) h (inl revoked) = rw revoked refl
  refused_found secret (some key) h (inr different) = elim (Bool-cases (is_some key.revoked_at)) [
    | inl revoked ↦ rw revoked refl
    | inr live ↦ rw (live, unequal _ _ different) refl
  ]

  -- Where the database finds no key for the secret's prefix, a revoked one, or one with another digest,
  -- the secret is refused with one message for the three, behind the lookup alone: nothing is written.
  pub authenticate_refuses :
      (secret prefix : String) (found : Option ApiKey) (h : History)
      → secret_prefix secret ≡ some prefix
      → w.reply (prisma (PrismaCall.api_key_find_unique prefix)) h ≡ ok found
      → IsRefused secret found
      → authenticate w sha256 secret h ≡ (
        throw (unauthorized "Invalid API key"),
        record { call = prisma (PrismaCall.api_key_find_unique prefix); reply = ok found } ∷ h,
      )
  unfolding authenticate perform
  authenticate_refuses secret prefix found h e replied refused =
      rw (e, replied) (refused_found secret found _ refused)
