-- ===== src/ApiKeys/Issued.antt =====
-- A key that src/api-keys/api-keys.service.ts issues, presented to it again.
use text.Mathlib.TextLemmas.{cons-append, cons-ne-nil}
use mathlib.Core.Path.{subst}
use lotus_build_server.Base.{
  ℕ, String, ◌<>◌, ◌≡◌, ◌≢◌, refl, sym, ap, ◌∙◌, none, some, List, [], ◌∷◌, ◌++◌,
}
use lotus_build_server.World.Data.{ApiKey}
use lotus_build_server.World.Calls.{
  Call, PrismaCall, ApiKeyData, ApiKeyUpdate, prisma, random_bytes,
}
use lotus_build_server.World.Exec.{
  ok, throw, History, World, Exec, perform, act, new_date, >>=-eq-ok, >>=_history, ◌>>=◌, Result,
  continue,
}
use lotus_build_server.World.Grows.{Grows, Extends, same, more, grows_rules}
use lotus_build_server.World.Returns.{Returns, Returns-bind, Returns-pure}
use lotus_build_server.ApiKeys.{IssuedApiKey, require_live, admit, authenticate, create, issue}
use lotus_build_server.ApiKeys.Secret.{from_hex}
use lotus_build_server.ApiKeys.Prefix.{NoDot, NoDot-append, secret_prefix_plain}
use lotus_build_server.ApiKeys.Authenticated.{bytes_eq_refl}

key_of : Call → List ApiKeyData
key_of (prisma (PrismaCall.api_key_create data_)) = data_ ∷ []
key_of _ = []

-- The keys that were inserted, or tried to be, the newest first.
unfoldable pub inserted : History → List ApiKeyData
unfolding key_of
inserted [] = []
inserted (e ∷ h) = key_of e.call ++ inserted h

abbrev NoKey : Call → Type 0
NoKey c = key_of c ≡ []

inserted-Extends : {h h' : History} → Extends NoKey h h' → inserted h' ≡ inserted h
unfolding inserted
inserted-Extends same = refl
inserted-Extends (more e p x) = rw p (inserted-Extends x)

inserted-continue :
    {A B : Type 0} (r : Result A) (k : A → Exec B) (h : History)
    → ((a : A) → Grows NoKey (k a))
    → inserted (continue r k h).1 ≡ inserted h
inserted-continue (ok a) k h kk = inserted-Extends ((kk a).at h)
inserted-continue (throw e) k h kk = refl

head-injective : (a b : ApiKeyData) (rest : List ApiKeyData) → (a ∷ rest) ≡ (b ∷ rest) → a ≡ b
head-injective a b rest e = cc

prefix-ne-nil : (random : String) → "sk" <> "_" <> random ≢ ""
prefix-ne-nil random = rw cons-append (λ e. cons-ne-nil _ _ e)

module _ (w : World) (sha256 : String → String) where
  live_admitted :
      (secret : String) (key : ApiKey) (h : History)
      → key.revoked_at ≡ none
      → key.hashed_secret ≡ sha256 secret
      → ((update : ApiKeyUpdate) (h' : History)
          → w.reply (prisma (PrismaCall.api_key_update key.id update)) h' ≡ ok tt)
      → ((require_live (some key) >>= admit w sha256 secret) h).0 ≡ ok key
  unfolding require_live admit act perform new_date
  live_admitted secret key h live digest updates =
      rw (live, digest, bytes_eq_refl (from_hex (sha256 secret)), updates _ _) refl

  -- a secret that is made of a prefix and a body, where the database has its key
  presented :
      (prefix body : String) (h : History) (key : ApiKey)
      → NoDot prefix
      → prefix ≢ ""
      → w.reply (prisma (PrismaCall.api_key_find_unique prefix)) h ≡ ok (some key)
      → key.hashed_secret ≡ sha256 (prefix <> "." <> body)
      → key.revoked_at ≡ none
      → ((update : ApiKeyUpdate) (at : History)
          → w.reply (prisma (PrismaCall.api_key_update key.id update)) at ≡ ok tt)
      → (authenticate w sha256 (prefix <> "." <> body) h).0 ≡ ok key
  unfolding authenticate perform
  presented prefix body h key plain ne found digest live updates =
      rw (secret_prefix_plain prefix body plain ne, found)
        (live_admitted (prefix <> "." <> body) key _ live digest updates)

  module _ (organization_id created_by_id name : String) where
    abbrev data_of : String → String → ApiKeyData
    data_of prefix secret = record {
      organization_id = organization_id;
      created_by_id = created_by_id;
      name = name;
      prefix = prefix;
      hashed_secret = sha256 secret;
    }

    Returns-issue :
        (prefix secret : String)
        → Returns
            (λ (issued : IssuedApiKey). (issued.prefix ≡ prefix) × (issued.secret ≡ secret))
            (issue w sha256 organization_id created_by_id name prefix secret)
    unfolding issue
    Returns-issue prefix secret =
        Returns-bind (perform w (prisma (PrismaCall.api_key_create (data_of prefix secret)))) _
          λ row. Returns-bind _ _ λ _. Returns-pure _ (refl, refl)

    inserted-issue :
        (prefix secret : String) (h : History)
        → inserted (issue w sha256 organization_id created_by_id name prefix secret h).1
          ≡ data_of prefix secret ∷ inserted h
    unfolding issue perform inserted
    inserted-issue prefix secret h =
        inserted-continue (w.reply (prisma (PrismaCall.api_key_create (data_of prefix secret))) h) _
          _ (λ row. search grows_rules)
        ∙ refl

    -- `create` taken apart: the prefix and the body, and what was inserted
    created_parts :
        (h : History) (issued : IssuedApiKey)
        → ((n : ℕ) (at : History) (text : String)
            → w.reply (random_bytes n) at ≡ ok text
            → NoDot text)
        → (create w sha256 organization_id created_by_id name h).0 ≡ ok issued
        → (random : String) × (body : String) × NoDot random
          × (issued.prefix ≡ "sk" <> "_" <> random)
          × (issued.secret ≡ ("sk" <> "_" <> random) <> "." <> body)
          × (inserted (create w sha256 organization_id created_by_id name h).1
              ≡ data_of ("sk" <> "_" <> random) (("sk" <> "_" <> random) <> "." <> body)
                ∷ inserted h)
    unfolding create perform inserted
    created_parts h issued hex created =
        let (random, e₁, e₂) = >>=-eq-ok (perform w (random_bytes 6)) _ h created in
        let (body, e₃, e₄) = >>=-eq-ok (perform w (random_bytes 32)) _ _ e₂ in
        let (prefix, secret) = (Returns-issue _ _).at _ issued e₄ in
        (
          random,
          body,
          hex 6 h random e₁,
          prefix,
          secret,
          ap inserted (
                >>=_history (perform w (random_bytes 6)) _ h e₁
                ∙ >>=_history (perform w (random_bytes 32)) _ _ e₃)
              ∙ inserted-issue _ _ _,
        )

    -- A secret that `create` returned is let through by `authenticate` as its key, where the random
    -- texts have no dot, the database replies for the inserted prefix with a key that has the digest which
    -- `create` inserted and is not revoked, and the update of the key succeeds.
    pub create-authenticate :
        (h h' : History) (issued : IssuedApiKey) (data_ : ApiKeyData) (key : ApiKey)
        → ((n : ℕ) (at : History) (text : String)
            → w.reply (random_bytes n) at ≡ ok text
            → NoDot text)
        → (create w sha256 organization_id created_by_id name h).0 ≡ ok issued
        → inserted (create w sha256 organization_id created_by_id name h).1 ≡ data_ ∷ inserted h
        → w.reply (prisma (PrismaCall.api_key_find_unique data_.prefix)) h' ≡ ok (some key)
        → key.hashed_secret ≡ data_.hashed_secret
        → key.revoked_at ≡ none
        → ((update : ApiKeyUpdate) (at : History)
            → w.reply (prisma (PrismaCall.api_key_update key.id update)) at ≡ ok tt)
        → (authenticate w sha256 issued.secret h').0 ≡ ok key
    create-authenticate h h' issued data_ key hex created stored found digest live updates =
        let (random, body, plain, prefix, secret, stored') = created_parts h issued hex created in
        let same = head-injective _ _ _ (sym stored' ∙ stored) in
        rw secret (
          presented ("sk" <> "_" <> random) body h' key
            (NoDot-append "sk" _ (refl, (refl, tt)) (NoDot-append "_" random (refl, tt) plain))
            (prefix-ne-nil random)
            (subst
              (λ (d : ApiKeyData).
                w.reply (prisma (PrismaCall.api_key_find_unique d.prefix)) h' ≡ ok (some key))
              (sym same) found)
            (digest ∙ ap (λ (d : ApiKeyData). d.hashed_secret) (sym same)) live updates)
