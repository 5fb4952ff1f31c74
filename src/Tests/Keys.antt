-- ===== src/Tests/Keys.antt =====
-- The keys of the API: one that is issued and presented, one that is revoked.
use mathlib.Core.Path.{subst}
use lotus_build_server.Base.{ℕ, String, ◌≡◌, refl, inl, none, some, [], ◌∷◌}
use lotus_build_server.World.Data.{ApiKey}
use lotus_build_server.World.Calls.{PrismaCall, ApiKeyData, prisma, random_bytes, Call, Reply}
use lotus_build_server.World.Exec.{
  Result, ok, throw, unauthorized, World, History, perform, act, new_date,
}
use lotus_build_server.ApiKeys.{IssuedApiKey, create, issue, authenticate, require_live, admit}
use lotus_build_server.ApiKeys.Secret.{secret_prefix, index_of_dot, slice_to, from_hex, bytes_eq}
use lotus_build_server.ApiKeys.Prefix.{NoDot}
use lotus_build_server.ApiKeys.Authenticated.{Holds, authenticate_sound, authenticate_refuses}
use lotus_build_server.ApiKeys.Issued.{inserted, create-authenticate}
use lotus_build_server.World.Returns.{ok-injective}
use lotus_build_server.Tests.Services.{world, api_key}

-- a hash that keeps nothing of the secret but lets the texts be short
abbrev digest : String → String
digest secret = "abcd"

abbrev issued : IssuedApiKey
issued = record {
  id = "k1";
  name = "CI";
  secret = "sk_0af3.0af3";
  prefix = "sk_0af3";
  created_at = 10;
}

abbrev stored : ApiKeyData
stored = record {
  organization_id = "o1";
  created_by_id = "alice";
  name = "CI";
  prefix = "sk_0af3";
  hashed_secret = "abcd";
}

hexadecimal :
    (n : ℕ) (at : History) (text : String) → world.reply (random_bytes n) at ≡ ok text → NoDot text
hexadecimal n at text e =
    subst (λ (t : String). NoDot t) (ok-injective "0af3" text e) (refl, (refl, (refl, (refl, tt))))

created : (create world digest "o1" "alice" "CI" []).0 ≡ ok issued
unfolding create issue perform act
created = refl

was_inserted : inserted (create world digest "o1" "alice" "CI" []).1 ≡ stored ∷ inserted []
unfolding create issue perform act inserted
was_inserted = refl

create-authenticate_example : (authenticate world digest issued.secret []).0 ≡ ok api_key
create-authenticate_example =
    create-authenticate world digest "o1" "alice" "CI" [] [] issued stored api_key hexadecimal
      created was_inserted refl refl refl (λ update at. refl)

lets_in : (authenticate world digest "sk_0af3.0af3" []).0 ≡ ok api_key
unfolding authenticate secret_prefix index_of_dot slice_to perform require_live admit from_hex
    bytes_eq new_date act
lets_in = refl

authenticate_sound_example : (prefix : String) × Holds world digest "sk_0af3.0af3" [] api_key prefix
authenticate_sound_example = authenticate_sound world digest "sk_0af3.0af3" [] api_key lets_in

abbrev revoked_key : ApiKey
revoked_key = record {
  id = "k1";
  organization_id = "o1";
  created_by_id = "alice";
  name = "CI";
  prefix = "sk_0af3";
  hashed_secret = "abcd";
  last_used_at = none;
  revoked_at = some 11;
  created_at = 10;
}

revoked_reply : (c : Call) → History → Result (Reply c)
revoked_reply (prisma (PrismaCall.api_key_find_unique prefix)) h = ok (some revoked_key)
revoked_reply c h = world.reply c h

abbrev revoked : World
revoked = record { reply = revoked_reply; now = λ h. 7; stringify = λ input. "{}" }

authenticate_refuses_example : authenticate revoked digest "sk_0af3.0af3" [] ≡ (
  throw (unauthorized "Invalid API key"),
  record { call = prisma (PrismaCall.api_key_find_unique "sk_0af3"); reply = ok (some revoked_key) }
      ∷ [],
)
unfolding secret_prefix index_of_dot slice_to revoked_reply
authenticate_refuses_example =
    authenticate_refuses revoked digest "sk_0af3.0af3" "sk_0af3" (some revoked_key) [] refl refl
      (inl refl)
