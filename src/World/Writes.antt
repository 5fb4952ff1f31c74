-- ===== src/World/Writes.antt =====
-- The calls of a history that write.
use lotus_build_server.Base.{Bool, true, false, List, [], ◌∷◌}
use lotus_build_server.World.Calls.{
  Call, PrismaCall, RedisCall, SandboxCall, prisma, redis, sandbox, messages_create,
  verify_id_token, random_bytes,
}
use lotus_build_server.World.Exec.{History}

abbrev is_query : PrismaCall → Bool
is_query (PrismaCall.session_find_first where_) = true
is_query (PrismaCall.session_find_many where_ query) = true
is_query (PrismaCall.message_find_many id query) = true
is_query (PrismaCall.run_find_unique id) = true
is_query (PrismaCall.run_find_first where_) = true
is_query (PrismaCall.run_find_many where_ query) = true
is_query (PrismaCall.step_count id) = true
is_query (PrismaCall.step_find_many id query) = true
is_query (PrismaCall.audit_find_many id limit) = true
is_query (PrismaCall.membership_find_unique u o) = true
is_query (PrismaCall.membership_find_many o) = true
is_query (PrismaCall.user_find_by_id id) = true
is_query (PrismaCall.user_find_by_email email) = true
is_query (PrismaCall.organization_find_by_id id) = true
is_query (PrismaCall.organization_find_by_slug slug) = true
is_query (PrismaCall.organization_find_many id) = true
is_query (PrismaCall.api_key_find_first id o) = true
is_query (PrismaCall.api_key_find_unique prefix) = true
is_query (PrismaCall.api_key_find_many o) = true
is_query _ = false

abbrev is_read : Call → Bool
is_read (prisma c) = is_query c
is_read (redis (RedisCall.exists key)) = true
is_read (redis (RedisCall.get_role key)) = true
is_read (redis (RedisCall.subscribe channel)) = true
is_read (sandbox (SandboxCall.read id path)) = true
is_read (sandbox (SandboxCall.list id path)) = true
is_read (messages_create request) = true
is_read (verify_id_token token) = true
is_read (random_bytes n) = true
is_read _ = false

abbrev logged : Bool → Call → List Call → List Call
logged true c calls = calls
logged false c calls = c ∷ calls

-- The newest first, those that threw included.
unfoldable pub writes : History → List Call
writes [] = []
writes (e ∷ h) = logged (is_read e.call) e.call (writes h)
