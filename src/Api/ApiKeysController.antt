-- ===== src/Api/ApiKeysController.antt =====
-- src/api-keys/api-keys.controller.ts. `uuid` is ParseUUIDPipe.
use lotus_build_server.Base.{String, List}
use lotus_build_server.World.Calls.{ApiKeySummary}
use lotus_build_server.World.Exec.{Result, World, Exec, lift, ◌>>=◌}
use lotus_build_server.ApiKeys
use lotus_build_server.ApiKeys.{IssuedApiKey}
use lotus_build_server.Auth.{AuthenticatedRequest, current_user}

module _ (w : World) (uuid : String → Result String) (organization : String) where
  abbrev pub create : (String → String) → AuthenticatedRequest → String → Exec IssuedApiKey
  create sha256 request name = do
    organization_id ← lift (uuid organization)
    user ← current_user request
    ApiKeys.create w sha256 organization_id user.id name

  abbrev pub list : Exec (List ApiKeySummary)
  list = do organization_id ← lift (uuid organization); ApiKeys.list w organization_id

  abbrev pub revoke : AuthenticatedRequest → String → Exec (Unit {0})
  revoke request api_key = do
    organization_id ← lift (uuid organization)
    api_key_id ← lift (uuid api_key)
    user ← current_user request
    ApiKeys.revoke w organization_id api_key_id user.id
