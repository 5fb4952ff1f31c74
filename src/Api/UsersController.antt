-- ===== src/Api/UsersController.antt =====
-- src/users/users.controller.ts.
use lotus_build_server.Base.{String, Option}
use lotus_build_server.World.Data.{Date}
use lotus_build_server.World.Exec.{World, Exec, pure, or_throw, not_found, ◌>>=◌}
use lotus_build_server.Auth
use lotus_build_server.Auth.{AuthenticatedRequest, current_user}

pub record Profile : Type 0 where
  pub id : String
  pub email : String
  pub name : Option String
  pub created_at : Date

abbrev pub me : World → AuthenticatedRequest → Exec Profile
me w request = do
  user ← current_user request
  found ← Auth.get_by_id w user.id
  row ← or_throw found (not_found "User not found")
  pure (record { id = row.id; email = row.email; name = row.name; created_at = row.created_at })
