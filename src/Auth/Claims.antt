-- ===== src/Auth/Claims.antt =====
-- The claims of a token in src/auth/token-verifier.service.ts.
use mathlib.Core.Path.{subst}
use lotus_build_server.Base.{
  String, ◌≡◌, ◌≢◌, ◌⊎◌, inl, inr, refl, sym, ap, ◌∙◌, Bool, true, false, not, ◌&&◌, Option, none,
  some, get_or, ◌==◌, if◌then◌else◌, eq_iff, arith, Bool-cases,
}
use lotus_build_server.Base.Text.{is_empty}
use lotus_build_server.World.Data.{DecodedIdToken}
use lotus_build_server.World.Exec.{
  unauthorized, Thrown, ok, throw, History, pure, raise, >>=-eq-ok, ◌>>=◌, or_throw,
}
use lotus_build_server.World.Returns.{or_throw-eq-ok, ok-injective}
use lotus_build_server.Auth.{VerifiedIdentity, non_empty, identity_of}

-- A decoded token that stands for a user: it has an email address, and one signed in with by password
-- is verified.
abbrev pub Trusted : DecodedIdToken → Type 0
Trusted decoded =
    (email : String) × (decoded.email ≡ some email)
    × (is_empty email ≡ false)
    × ((decoded.sign_in_provider ≢ "password") ⊎ (decoded.email_verified ≡ true))

non_empty_sound :
    (o : Option String) (s : String) → non_empty o ≡ some s → (o ≡ some s) × (is_empty s ≡ false)
unfolding non_empty
non_empty_sound none s e = cc
non_empty_sound (some String.[]) s e = cc
non_empty_sound (some (String.◌∷◌ c t)) s e =
    (e, subst (λ (r : Option String). is_empty (get_or r "x") ≡ false) e refl)

accepted :
    (candidate identity : VerifiedIdentity) (by_password verified : Bool) (h : History)
    → ((if by_password && not verified
          then raise (unauthorized "Email address is not verified")
          else pure candidate)
        h).0
      ≡ ok identity
    → (candidate ≡ identity) × ((by_password ≡ false) ⊎ (verified ≡ true))
accepted candidate identity false verified h e = (ok-injective candidate identity e, inl refl)
accepted candidate identity true true h e = (ok-injective candidate identity e, inr refl)
accepted candidate identity true false h e = cc

other_provider :
    (decoded : DecodedIdToken)
    → ((decoded.sign_in_provider == "password") ≡ false) ⊎ (decoded.email_verified ≡ true)
    → (decoded.sign_in_provider ≢ "password") ⊎ (decoded.email_verified ≡ true)
other_provider decoded (inl other) =
    inl (ground (arith, other, eq_iff decoded.sign_in_provider "password"))
other_provider decoded (inr verified) = inr verified

good_claims :
    (by_password verified : Bool)
    → (by_password && not verified) ≡ false
    → (by_password ≡ false) ⊎ (verified ≡ true)
good_claims false verified e = inl refl
good_claims true true e = inr refl
good_claims true false e = cc

module _ (decoded : DecodedIdToken) (h : History) where
  pub identity_of_sound :
      (identity : VerifiedIdentity)
      → (identity_of decoded h).0 ≡ ok identity
      → Trusted decoded
        × (identity.external_id ≡ decoded.uid)
        × (decoded.email ≡ some identity.email)
  unfolding identity_of
  identity_of_sound identity e =
      let (email, e₁, e₂) =
        >>=-eq-ok
          (or_throw (non_empty decoded.email) (unauthorized "Token is missing an email claim")) _ h
          e in
      let (e₃, full) = non_empty_sound decoded.email email (or_throw-eq-ok _ _ email h e₁) in
      let (same, claims) = accepted _ identity _ decoded.email_verified _ e₂ in
      (
        (email, e₃, full, other_provider decoded claims),
        ap (λ (i : VerifiedIdentity). i.external_id) (sym same),
        e₃ ∙ ap (λ (i : VerifiedIdentity). some i.email) same,
      )

  pub refuses_claims :
      (email : Option String)
      → decoded.email ≡ email
      → ¬ Trusted decoded
      → (message : String) × (identity_of decoded h ≡ (throw (unauthorized message), h))
  unfolding identity_of non_empty
  refuses_claims none e distrusted = ("Token is missing an email claim", rw e refl)
  refuses_claims (some email) e distrusted = elim (Bool-cases (is_empty email)) [
    | inl empty ↦ ("Token is missing an email claim", rw (e, empty) refl)
    | inr full ↦
        elim (Bool-cases (decoded.sign_in_provider == "password" && not decoded.email_verified)) [
          | inl bad ↦ ("Email address is not verified", rw (e, full, bad) refl)
          | inr good ↦ absurd (
              distrusted (
                email,
                e,
                full,
                other_provider decoded (good_claims _ decoded.email_verified good),
              ))
        ]
  ]

stays :
    (found : Option String) (bad : Bool) (missing refused : Thrown)
    (identity : String → VerifiedIdentity) (h : History)
    → ((or_throw found missing >>= λ email. if bad then raise refused else pure (identity email))
        h).1
      ≡ h
stays none bad missing refused identity h = refl
stays (some email) true missing refused identity h = refl
stays (some email) false missing refused identity h = refl

pub identity_of_history : (decoded : DecodedIdToken) (h : History) → (identity_of decoded h).1 ≡ h
unfolding identity_of
identity_of_history decoded h = stays (non_empty decoded.email) _ _ _ _ h
