-- ===== src/Auth/Verified.antt =====
-- Whom src/auth/jwt-auth.guard.ts lets through, and what it makes of the others.
use lotus_build_server.Base.{String, ◌≡◌, refl, sym, ap, ◌∙◌, Option, none, some, ◌∷◌}
use lotus_build_server.World.Data.{DecodedIdToken, User}
use lotus_build_server.World.Calls.{PrismaCall, prisma, verify_id_token}
use lotus_build_server.World.Exec.{
  unauthorized, Result, ok, throw, History, World, Exec, perform, pure, raise, >>=-eq-ok, ◌>>=◌,
  or_throw,
}
use lotus_build_server.World.Returns.{ok-injective}
use lotus_build_server.Auth.{
  RequestUser, VerifiedIdentity, identity_of, bearer_token, verify, authenticate,
  provision_from_identity,
}
use lotus_build_server.Auth.Claims.{Trusted, identity_of_sound, refuses_claims, identity_of_history}

-- The user that the guard puts into the request.
abbrev pub request_user : User → RequestUser
request_user user = record { id = user.id; external_id = user.external_id; email = user.email }

-- The history behind the verification of a token.
abbrev pub checked : String → Result DecodedIdToken → History → History
checked token reply h = record { call = verify_id_token token; reply = reply } ∷ h

module _ (w : World) where
  -- Whom the guard lets through as `user`.
  abbrev pub Verified : Option String → History → RequestUser → Type 0
  Verified found h user =
      (token : String) × (decoded : DecodedIdToken) × (identity : VerifiedIdentity) × (row : User)
      × (found ≡ some token)
      × (w.reply (verify_id_token token) h ≡ ok decoded)
      × Trusted decoded
      × (identity.external_id ≡ decoded.uid)
      × (decoded.email ≡ some identity.email)
      × (w.reply (prisma (PrismaCall.user_upsert identity.external_id identity.email identity.name))
            (checked token (ok decoded) h)
          ≡ ok row)
      × (user ≡ request_user row)

  -- The token is refused by Firebase, or stands for no user.
  abbrev pub IsRefused : Result DecodedIdToken → Type 0
  IsRefused (throw e) = Unit
  IsRefused (ok decoded) = ¬ Trusted decoded

  -- `verify` behind the call of Firebase
  abbrev behind : Result DecodedIdToken → Exec VerifiedIdentity
  behind (throw e) = raise (unauthorized "Invalid, expired, or revoked ID token")
  behind (ok decoded) = identity_of decoded

  verify_eq :
      (token : String) (reply : Result DecodedIdToken) (h : History)
      → w.reply (verify_id_token token) h ≡ reply
      → verify w token h ≡ behind reply (checked token reply h)
  unfolding verify perform
  verify_eq token (throw e) h e₁ = rw e₁ refl
  verify_eq token (ok decoded) h e₁ = rw e₁ refl

  verify_refuses :
      (token : String) (reply : Result DecodedIdToken) (h : History)
      → w.reply (verify_id_token token) h ≡ reply
      → IsRefused reply
      → (message : String) × (verify w token h
          ≡ (throw (unauthorized message), checked token reply h))
  verify_refuses token (throw e) h e₁ refused =
      ("Invalid, expired, or revoked ID token", verify_eq token (throw e) h e₁)
  verify_refuses token (ok decoded) h e₁ refused =
      let (message, e₂) =
        refuses_claims decoded (checked token (ok decoded) h) decoded.email refl refused in
      (message, verify_eq token (ok decoded) h e₁ ∙ e₂)

  -- A route that is not public answers 401 to a request with a token that Firebase refuses, or that
  -- stands for no user; the verification of the token is its only call.
  pub authenticate_denies :
      (authorization : Option String) (token : String) (reply : Result DecodedIdToken) (h : History)
      → bearer_token authorization ≡ some token
      → w.reply (verify_id_token token) h ≡ reply
      → IsRefused reply
      → (message : String) × (authenticate w authorization h
          ≡ (throw (unauthorized message), checked token reply h))
  unfolding authenticate
  authenticate_denies authorization token reply h e₁ e₂ refused =
      let (message, e₃) = verify_refuses token reply h e₂ refused in (message, rw (e₁, e₃) refl)

  decoded_behind :
      (token : String) (reply : Result DecodedIdToken) (identity : VerifiedIdentity) (h : History)
      → w.reply (verify_id_token token) h ≡ reply
      → (behind reply (checked token reply h)).0 ≡ ok identity
      → (decoded : DecodedIdToken) × (w.reply (verify_id_token token) h ≡ ok decoded)
        × Trusted decoded
        × (identity.external_id ≡ decoded.uid)
        × (decoded.email ≡ some identity.email)
        × ((verify w token h).1 ≡ checked token (ok decoded) h)
  decoded_behind token (throw t) identity h e₁ e₂ = cc
  decoded_behind token (ok decoded) identity h e₁ e₂ =
      let (trusted, uid, email) =
        identity_of_sound decoded (checked token (ok decoded) h) identity e₂ in
      (
        decoded,
        e₁,
        trusted,
        uid,
        email,
        ap (λ (p : Result VerifiedIdentity × History). p.1) (verify_eq token (ok decoded) h e₁)
            ∙ identity_of_history decoded (checked token (ok decoded) h),
      )

  provisioned :
      (identity : VerifiedIdentity) (user : RequestUser) (h h' : History)
      → h ≡ h'
      → ((provision_from_identity w identity >>= λ row. pure (request_user row)) h).0 ≡ ok user
      → (row : User) × (w.reply
            (prisma (PrismaCall.user_upsert identity.external_id identity.email identity.name))
            h'
          ≡ ok row)
        × (user ≡ request_user row)
  unfolding provision_from_identity perform
  provisioned identity user h h' same e =
      let (row, e₁, e₂) = >>=-eq-ok (provision_from_identity w identity) _ h e in
      (row, rw (← same) e₁, sym (ok-injective (request_user row) user e₂))

  with_token :
      (found : Option String) (user : RequestUser) (h : History)
      → ((or_throw found (unauthorized "Missing bearer token") >>= λ token.
            verify w token >>= λ identity.
            provision_from_identity w identity >>= λ row. pure (request_user row))
          h).0
        ≡ ok user
      → Verified found h user
  with_token none user h e = cc
  with_token (some token) user h e =
      let (identity, e₁, e₂) = >>=-eq-ok (verify w token) _ h e in
      let (decoded, replied, trusted, uid, email, history) =
        decoded_behind token (w.reply (verify_id_token token) h) identity h refl (
          ap (λ (p : Result VerifiedIdentity × History). p.0) (sym (verify_eq token _ h refl))
          ∙ e₁) in
      let (row, upserted, same) = provisioned identity user _ _ history e₂ in
      (token, decoded, identity, row, refl, replied, trusted, uid, email, upserted, same)

  -- The guard lets a request through only with a bearer token that Firebase decoded, to claims that
  -- stand for a user, as the user whom the database replied with to the upsert of this identity.
  pub authenticate-Verified :
      (authorization : Option String) (user : RequestUser) (h : History)
      → (authenticate w authorization h).0 ≡ ok user
      → Verified (bearer_token authorization) h user
  unfolding authenticate
  authenticate-Verified authorization user h e = with_token (bearer_token authorization) user h e
