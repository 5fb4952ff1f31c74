-- ===== src/Tests/Services.antt =====
-- Services that answer: a run that is running, a model that uses a tool once and then answers, and a
-- database with one session.
use lotus_build_server.Base.{ℕ, String, Bool, true, false, none, some, [], ◌∷◌, length, ltb}
use lotus_build_server.World.Data.{
  User, Organization, Membership, ApiKey, DecodedIdToken, Session, Message, AgentRun, AgentStep,
  AgentRunStatus, AgentStepType, SessionStatus, MessageRole, OrgActor, MembershipRole, Response,
  Block, StopReason, Value,
}
use lotus_build_server.World.Calls.{
  Call, Reply, PrismaCall, PrismaReply, RedisCall, RedisReply, SandboxCall, SandboxReply, prisma,
  firestore, redis, sandbox, messages_create, queue_add, agent_runs_total_inc, verify_id_token,
  random_bytes, EntryType,
}
use lotus_build_server.World.Exec.{ok, World}
use lotus_build_server.Agent.Loop.{Config}
use lotus_build_server.Agent.Sandbox.{SandboxHandle}

abbrev pub session : Session
session = record {
  id = "s1";
  organization_id = "o1";
  creator_id = "alice";
  title = "Fix the build";
  status = SessionStatus.active;
  created_at = 1;
  updated_at = 2;
}

abbrev pub run_with : AgentRunStatus → AgentRun
run_with status = record {
  id = "r1";
  organization_id = "o1";
  session_id = "s1";
  creator_id = "alice";
  prompt = "fix it";
  model = "m";
  status = status;
  error = none;
  sandbox_id = none;
  started_at = 3;
  finished_at = none;
}

abbrev step : AgentStep
step = record {
  id = "t1";
  run_id = "r1";
  index = 0;
  type = AgentStepType.assistant;
  name = none;
  content = "";
  created_at = 4;
}

abbrev pub message : Message
message = record {
  id = "m1";
  session_id = "s1";
  author_id = some "alice";
  role = MessageRole.user;
  content = "hello";
  created_at = 5;
}

abbrev pub membership_of : String → String → MembershipRole → Membership
membership_of user_id organization_id role = record {
  id = "p1";
  user_id = user_id;
  organization_id = organization_id;
  role = role;
  created_at = 6;
}

abbrev pub user_of : String → User
user_of id = record {
  id = id;
  external_id = "firebase-1";
  email = "a@lotus.build";
  name = none;
  created_at = 8;
}

abbrev pub organization : Organization
organization = record { id = "o1"; name = "Lotus"; slug = "lotus"; created_at = 9 }

abbrev pub api_key : ApiKey
api_key = record {
  id = "k1";
  organization_id = "o1";
  created_by_id = "alice";
  name = "CI";
  prefix = "sk_0af3";
  hashed_secret = "abcd";
  last_used_at = none;
  revoked_at = none;
  created_at = 10;
}

abbrev pub identity : DecodedIdToken
identity = record {
  uid = "firebase-1";
  email = some "a@lotus.build";
  email_verified = true;
  sign_in_provider = "password";
  name = none;
}

-- the status that the run has, and how many keys Redis finds
module _ (status : AgentRunStatus) (found : ℕ) where
  abbrev prisma_reply : (c : PrismaCall) → PrismaReply c
  prisma_reply (PrismaCall.session_create o u t) = session
  prisma_reply (PrismaCall.session_find_first where_) = some session
  prisma_reply (PrismaCall.session_find_many where_ query) = session ∷ []
  prisma_reply (PrismaCall.session_update id data_) = session
  prisma_reply (PrismaCall.message_create data_) = message
  prisma_reply (PrismaCall.message_find_many id query) = message ∷ []
  prisma_reply (PrismaCall.run_create data_) = run_with AgentRunStatus.running
  prisma_reply (PrismaCall.run_find_unique id) = some (run_with status)
  prisma_reply (PrismaCall.run_find_first where_) = some (run_with status)
  prisma_reply (PrismaCall.run_find_many where_ query) = run_with status ∷ []
  prisma_reply (PrismaCall.run_update id update) = tt
  prisma_reply (PrismaCall.step_count id) = 2
  prisma_reply (PrismaCall.step_create data_) = step
  prisma_reply (PrismaCall.step_find_many id query) = step ∷ []
  prisma_reply (PrismaCall.audit_create entry) = tt
  prisma_reply (PrismaCall.audit_find_many organization_id limit) = []
  prisma_reply (PrismaCall.membership_find_unique user_id organization_id) =
      some (membership_of user_id organization_id MembershipRole.admin)
  prisma_reply (PrismaCall.membership_find_many organization_id) = []
  prisma_reply (PrismaCall.membership_create user_id organization_id role) =
      membership_of user_id organization_id role
  prisma_reply (PrismaCall.user_find_by_id id) = some (user_of id)
  prisma_reply (PrismaCall.user_find_by_email email) = some (user_of "carol")
  prisma_reply (PrismaCall.user_upsert external_id email name) = user_of "alice"
  prisma_reply (PrismaCall.organization_find_by_id id) = some organization
  prisma_reply (PrismaCall.organization_find_by_slug slug) = none
  prisma_reply (PrismaCall.organization_find_many user_id) = organization ∷ []
  prisma_reply (PrismaCall.organization_create name slug) = organization
  prisma_reply PrismaCall.transaction_begin = tt
  prisma_reply PrismaCall.transaction_commit = tt
  prisma_reply PrismaCall.transaction_rollback = tt
  prisma_reply (PrismaCall.api_key_create data_) = api_key
  prisma_reply (PrismaCall.api_key_find_first id organization_id) = some api_key
  prisma_reply (PrismaCall.api_key_find_unique prefix) = some api_key
  prisma_reply (PrismaCall.api_key_find_many organization_id) = []
  prisma_reply (PrismaCall.api_key_update id update) = tt

  abbrev redis_reply : (c : RedisCall) → RedisReply c
  redis_reply (RedisCall.set key value seconds) = tt
  redis_reply (RedisCall.exists key) = found
  redis_reply (RedisCall.del key) = tt
  redis_reply (RedisCall.publish channel payload) = tt
  redis_reply (RedisCall.subscribe channel) = tt
  redis_reply (RedisCall.get_role key) = none
  redis_reply (RedisCall.set_role key role seconds) = tt

  abbrev sandbox_reply : (c : SandboxCall) → SandboxReply c
  sandbox_reply (SandboxCall.create time) = "box"
  sandbox_reply (SandboxCall.run id command cwd time) = record { stdout = "out"; stderr = "" }
  sandbox_reply (SandboxCall.read id path) = "text"
  sandbox_reply (SandboxCall.write id path content) = tt
  sandbox_reply (SandboxCall.list id path) = record { name = "src"; type = EntryType.dir } ∷ []
  sandbox_reply (SandboxCall.kill id) = tt

  abbrev respond : Bool → Response
  respond true = record { content = Block.text "done" ∷ []; stop_reason = StopReason.other }
  respond false = record {
    content =
        Block.text "looking"
        ∷ Block.tool_use "u1" "read_file" (("path", Value.text "a.ts") ∷ [])
        ∷ [];
    stop_reason = StopReason.tool_use;
  }

  abbrev reply : (c : Call) → Reply c
  reply (prisma c) = prisma_reply c
  reply (firestore c) = tt
  reply (redis c) = redis_reply c
  reply (sandbox c) = sandbox_reply c
  reply (messages_create request) = respond (ltb 1 (length request.messages))
  reply (queue_add name data_ id) = tt
  reply (agent_runs_total_inc s) = tt
  reply (verify_id_token token) = identity
  reply (random_bytes n) = "0af3"

  abbrev pub services : World
  services = record { reply = λ c h. ok (reply c); now = λ h. 7; stringify = λ input. "{}" }

abbrev pub world : World
world = services AgentRunStatus.running 0

-- the same, in a database without memberships
abbrev fresh_reply : (c : Call) → Reply c
fresh_reply (prisma (PrismaCall.membership_find_unique user_id organization_id)) = none
fresh_reply c = reply AgentRunStatus.running 0 c

abbrev pub fresh : World
fresh = record { reply = λ c h. ok (fresh_reply c); now = λ h. 7; stringify = λ input. "{}" }

abbrev pub config : Config
config = record {
  model = "m";
  max_iterations = 5;
  sandbox_timeout_ms = 60000;
  command_timeout_ms = 1000;
}

abbrev pub handle : SandboxHandle
handle = record { sandbox_id = "box"; command_timeout_ms = 1000 }

abbrev pub alice : OrgActor
alice = record { user_id = "alice"; role = MembershipRole.member }

abbrev pub bob : OrgActor
bob = record { user_id = "bob"; role = MembershipRole.member }
