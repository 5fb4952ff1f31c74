-- ===== src/Cache.antt =====
-- src/redis/cache.service.ts, at the type at which it is used: a membership's role. The JSON text that
-- Redis holds is the role that it stands for.
use lotus_build_server.Base.{ℕ, String, Option}
use lotus_build_server.World.Data.{MembershipRole}
use lotus_build_server.World.Calls.{Call, RedisCall}
use lotus_build_server.World.Exec.{World, Exec, perform, act}

module _ (w : World) where
  abbrev pub get_json : String → Exec (Option MembershipRole)
  get_json key = perform w (Call.redis (RedisCall.get_role key))

  abbrev pub set_json : String → MembershipRole → ℕ → Exec (Unit {0})
  set_json key value ttl_seconds = act w (Call.redis (RedisCall.set_role key value ttl_seconds))

  -- `delete`
  abbrev pub delete : String → Exec (Unit {0})
  delete key = act w (Call.redis (RedisCall.del key))
