-- ===== src/ApiKeys.antt =====
-- src/api-keys/api-keys.service.ts: the keys of an organization. SHA-256, in hexadecimal digits, is a
-- parameter.
pub mod Secret
pub mod Prefix
pub mod Authenticated
pub mod Issued
use lotus_build_server.Base.{
  String, ◌<>◌, Bool, true, false, not, Option, none, some, List, is_some, if◌then◌else◌,
}
use lotus_build_server.World.Data.{Date, ApiKey}
use lotus_build_server.World.Calls.{Call, PrismaCall, Metadata, ApiKeyUpdate, ApiKeySummary}
use lotus_build_server.World.Exec.{
  Thrown, http, unauthorized, not_found, World, Exec, pure, raise, ◌>>=◌, ◌>>◌, or_throw, perform,
  act, new_date,
}
use lotus_build_server.Audit
use Secret.{secret_prefix, from_hex, bytes_eq}

abbrev key_prefix : String
key_prefix = "sk"

pub record IssuedApiKey : Type 0 where
  pub id : String
  pub name : String
  pub secret : String
  pub prefix : String
  pub created_at : Date

-- `!key || key.revokedAt`
unfoldable pub require_live : Option ApiKey → Exec ApiKey
require_live none = raise (unauthorized "Invalid API key")
require_live (some key) =
    if is_some key.revoked_at then raise (unauthorized "Invalid API key") else pure key

module _ (w : World) (sha256 : String → String) where
  -- `create` once the two random texts are there
  unfoldable pub issue : String → String → String → String → String → Exec IssuedApiKey
  issue organization_id created_by_id name prefix secret = do
    row ← perform w (
        Call.prisma (
          PrismaCall.api_key_create (record {
            organization_id = organization_id;
            created_by_id = created_by_id;
            name = name;
            prefix = prefix;
            hashed_secret = sha256 secret;
          })))
    Audit.record_entry w (record {
      organization_id = some organization_id;
      actor_id = some created_by_id;
      action = "api_key.created";
      target_type = "api_key";
      target_id = some row.id;
      metadata = Metadata.absent;
    })
    pure (record {
      id = row.id;
      name = row.name;
      secret = secret;
      prefix = prefix;
      created_at = row.created_at;
    })

  unfoldable pub create : String → String → String → Exec IssuedApiKey
  create organization_id created_by_id name = do
    random ← perform w (Call.random_bytes 6)
    let prefix = key_prefix <> "_" <> random
    secret_body ← perform w (Call.random_bytes 32)
    let secret = prefix <> "." <> secret_body
    issue organization_id created_by_id name prefix secret

  -- the comparison of the digests, and what stands behind it
  unfoldable pub admit : String → ApiKey → Exec ApiKey
  admit secret key =
      if not (bytes_eq (from_hex (sha256 secret)) (from_hex key.hashed_secret))
      then raise (unauthorized "Invalid API key")
      else do
        last_used_at ← new_date w
        act w (Call.prisma (PrismaCall.api_key_update key.id (ApiKeyUpdate.used last_used_at)))
        pure key

  unfoldable pub authenticate : String → Exec ApiKey
  authenticate secret = do
    prefix ← or_throw (secret_prefix secret) (unauthorized "Malformed API key")
    found ← perform w (Call.prisma (PrismaCall.api_key_find_unique prefix))
    key ← require_live found
    admit secret key

module _ (w : World) where
  unfoldable pub list : String → Exec (List ApiKeySummary)
  list organization_id = perform w (Call.prisma (PrismaCall.api_key_find_many organization_id))

  unfoldable pub revoke : String → String → String → Exec (Unit {0})
  revoke organization_id api_key_id actor_id = do
    found ← perform w (Call.prisma (PrismaCall.api_key_find_first api_key_id organization_id))
    or_throw found (not_found "API key not found or already revoked")
    revoked_at ← new_date w
    act w (Call.prisma (PrismaCall.api_key_update api_key_id (ApiKeyUpdate.revoked revoked_at)))
    Audit.record_entry w (record {
      organization_id = some organization_id;
      actor_id = some actor_id;
      action = "api_key.revoked";
      target_type = "api_key";
      target_id = some api_key_id;
      metadata = Metadata.absent;
    })
