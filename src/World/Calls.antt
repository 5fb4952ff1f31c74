-- ===== src/World/Calls.antt =====
-- The calls to Postgres (Prisma), Firestore, Redis, Anthropic, E2B, BullMQ, Firebase and the metrics
-- registry, and for random bytes, with the arguments that the code passes, and the type of each call's
-- reply.
use lotus_build_server.Base.{ℕ, String, Option, List}
use lotus_build_server.World.Data.{
  MembershipRole, Membership, AgentRunStatus, Session, Message, AgentRun, AgentStep, User,
  Organization, ApiKey, Response, MessageParam, ToolDefinition, RunUpdate, ChannelPayload,
  MirroredRun, MirroredStep, MirroredMessage, MirroredMember, DecodedIdToken,
}
pub use lotus_build_server.World.Queries.{
  SortField, Direction, PageQuery, StatusFilter, SessionWhere, RunWhere, SessionData, RunData,
  StepData, MessageData, Metadata, AuditEntry, AuditLog, ApiKeyData, ApiKeyUpdate, ApiKeySummary,
  MemberUser,
}

pub data PrismaCall : Type 0 where
  session_create : String → String → String → PrismaCall
  session_find_first : SessionWhere → PrismaCall
  session_find_many : SessionWhere → PageQuery → PrismaCall
  session_update : String → SessionData → PrismaCall
  message_create : MessageData → PrismaCall
  message_find_many : String → PageQuery → PrismaCall
  run_create : RunData → PrismaCall
  run_find_unique : String → PrismaCall
  run_find_first : RunWhere → PrismaCall
  run_find_many : RunWhere → PageQuery → PrismaCall
  run_update : String → RunUpdate → PrismaCall
  step_count : String → PrismaCall
  step_create : StepData → PrismaCall
  step_find_many : String → PageQuery → PrismaCall
  audit_create : AuditEntry → PrismaCall
  audit_find_many : String → ℕ → PrismaCall
  membership_find_unique : String → String → PrismaCall
  membership_find_many : String → PrismaCall
  membership_create : String → String → MembershipRole → PrismaCall
  user_find_by_id : String → PrismaCall
  user_find_by_email : String → PrismaCall
  user_upsert : String → String → Option String → PrismaCall
  organization_find_by_id : String → PrismaCall
  organization_find_by_slug : String → PrismaCall
  organization_find_many : String → PrismaCall
  organization_create : String → String → PrismaCall
  transaction_begin transaction_commit transaction_rollback : PrismaCall
  api_key_create : ApiKeyData → PrismaCall
  api_key_find_first : String → String → PrismaCall
  api_key_find_unique : String → PrismaCall
  api_key_find_many : String → PrismaCall
  api_key_update : String → ApiKeyUpdate → PrismaCall

abbrev pub PrismaReply : PrismaCall → Type 0
PrismaReply (session_create _ _ _) = Session
PrismaReply (session_find_first _) = Option Session
PrismaReply (session_find_many _ _) = List Session
PrismaReply (session_update _ _) = Session
PrismaReply (message_create _) = Message
PrismaReply (message_find_many _ _) = List Message
PrismaReply (run_create _) = AgentRun
PrismaReply (run_find_unique _) = Option AgentRun
PrismaReply (run_find_first _) = Option AgentRun
PrismaReply (run_find_many _ _) = List AgentRun
PrismaReply (run_update _ _) = Unit
PrismaReply (step_count _) = ℕ
PrismaReply (step_create _) = AgentStep
PrismaReply (step_find_many _ _) = List AgentStep
PrismaReply (audit_create _) = Unit
PrismaReply (audit_find_many _ _) = List AuditLog
PrismaReply (membership_find_unique _ _) = Option Membership
PrismaReply (membership_find_many _) = List (Membership × MemberUser)
PrismaReply (membership_create _ _ _) = Membership
PrismaReply (user_find_by_id _) = Option User
PrismaReply (user_find_by_email _) = Option User
PrismaReply (user_upsert _ _ _) = User
PrismaReply (organization_find_by_id _) = Option Organization
PrismaReply (organization_find_by_slug _) = Option Organization
PrismaReply (organization_find_many _) = List Organization
PrismaReply (organization_create _ _) = Organization
PrismaReply transaction_begin = Unit
PrismaReply transaction_commit = Unit
PrismaReply transaction_rollback = Unit
PrismaReply (api_key_create _) = ApiKey
PrismaReply (api_key_find_first _ _) = Option ApiKey
PrismaReply (api_key_find_unique _) = Option ApiKey
PrismaReply (api_key_find_many _) = List ApiKeySummary
PrismaReply (api_key_update _ _) = Unit

pub data Document : Type 0 where
  run : MirroredRun → Document
  run_update : RunUpdate → Document
  step : MirroredStep → Document
  message : MirroredMessage → Document
  member : MirroredMember → Document

-- a document's path is its collections and names in turn; `merge` is `set` with `{ merge: true }`
pub data FirestoreCall : Type 0 where
  merge create : List String → Document → FirestoreCall

-- `get_role` and `set_role` are the texts `{"role": …}` of the membership cache
pub data RedisCall : Type 0 where
  set : String → String → ℕ → RedisCall
  exists : String → RedisCall
  del : String → RedisCall
  publish : String → ChannelPayload → RedisCall
  subscribe : String → RedisCall
  get_role : String → RedisCall
  set_role : String → MembershipRole → ℕ → RedisCall

abbrev pub RedisReply : RedisCall → Type 0
RedisReply (exists _) = ℕ
RedisReply (get_role _) = Option MembershipRole
RedisReply _ = Unit

pub record CommandResult : Type 0 where
  pub stdout : String
  pub stderr : String

pub data EntryType : Type 0 where
  file dir : EntryType

pub record EntryInfo : Type 0 where
  pub name : String
  pub type : EntryType

-- the sandbox is named by its id; times are in milliseconds
pub data SandboxCall : Type 0 where
  create : ℕ → SandboxCall
  run : String → String → String → ℕ → SandboxCall
  read : String → String → SandboxCall
  write : String → String → String → SandboxCall
  list : String → String → SandboxCall
  kill : String → SandboxCall

abbrev pub SandboxReply : SandboxCall → Type 0
SandboxReply (create _) = String
SandboxReply (run _ _ _ _) = CommandResult
SandboxReply (read _ _) = String
SandboxReply (write _ _ _) = Unit
SandboxReply (list _ _) = List EntryInfo
SandboxReply (kill _) = Unit

pub record MessagesRequest : Type 0 where
  pub model : String
  pub max_tokens : ℕ
  pub system : String
  pub tools : List ToolDefinition
  pub messages : List MessageParam

pub record AgentRunJobData : Type 0 where
  pub run_id : String
  pub prompt : String

-- the reply to `random_bytes` is in hexadecimal digits
pub data Call : Type 0 where
  prisma : PrismaCall → Call
  firestore : FirestoreCall → Call
  redis : RedisCall → Call
  sandbox : SandboxCall → Call
  messages_create : MessagesRequest → Call
  queue_add : String → AgentRunJobData → String → Call
  agent_runs_total_inc : AgentRunStatus → Call
  verify_id_token : String → Call
  random_bytes : ℕ → Call

abbrev pub Reply : Call → Type 0
Reply (prisma c) = PrismaReply c
Reply (firestore c) = Unit
Reply (redis c) = RedisReply c
Reply (sandbox c) = SandboxReply c
Reply (messages_create _) = Response
Reply (queue_add _ _ _) = Unit
Reply (agent_runs_total_inc _) = Unit
Reply (verify_id_token _) = DecodedIdToken
Reply (random_bytes _) = String
