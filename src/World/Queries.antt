-- ===== src/World/Queries.antt =====
-- The filters and the data that the code passes to Prisma.
use lotus_build_server.Base.{ℕ, String, Option, List}
use lotus_build_server.World.Data.{Date, SessionStatus, MembershipRole, MessageRole, AgentStepType}

pub data SortField : Type 0 where
  id created_at updated_at started_at index : SortField

pub data Direction : Type 0 where
  asc desc : Direction

-- `orderBy`, `take`, `cursor` and `skip` of a `findMany`
pub record PageQuery : Type 0 where
  pub order_by : List (SortField × Direction)
  pub take : ℕ
  pub cursor : Option String
  pub skip : ℕ

-- the filter on a session's status
pub data StatusFilter : Type 0 where
  any : StatusFilter
  equals not_equals : SessionStatus → StatusFilter

-- `none` stands for a condition that the query does not have
pub record SessionWhere : Type 0 where
  pub id : Option String
  pub organization_id : String
  pub status : StatusFilter
  pub creator_id : Option String

pub record RunWhere : Type 0 where
  pub id : Option String
  pub organization_id : String
  pub session_id : Option String
  pub session_creator_id : Option String

-- a field that is `none` is left as it is
pub record SessionData : Type 0 where
  pub title : Option String
  pub status : Option SessionStatus

pub record RunData : Type 0 where
  pub organization_id : String
  pub session_id : String
  pub creator_id : String
  pub prompt : String
  pub model : String

pub record StepData : Type 0 where
  pub run_id : String
  pub index : ℕ
  pub type : AgentStepType
  pub name : Option String
  pub content : String

pub record MessageData : Type 0 where
  pub session_id : String
  pub author_id : Option String
  pub role : MessageRole
  pub content : String

-- what `metadata` holds
pub data Metadata : Type 0 where
  absent : Metadata
  session_changes : SessionData → Metadata
  added_member : MembershipRole → String → Metadata

pub record AuditEntry : Type 0 where
  pub organization_id : Option String
  pub actor_id : Option String
  pub action : String
  pub target_type : String
  pub target_id : Option String
  pub metadata : Metadata

pub record AuditLog : Type 0 where
  pub id : String
  pub entry : AuditEntry
  pub created_at : Date

pub record ApiKeyData : Type 0 where
  pub organization_id : String
  pub created_by_id : String
  pub name : String
  pub prefix : String
  pub hashed_secret : String

-- the two updates of a key that the code writes
pub data ApiKeyUpdate : Type 0 where
  revoked used : Date → ApiKeyUpdate

-- the fields that the list of keys selects
pub record ApiKeySummary : Type 0 where
  pub id : String
  pub name : String
  pub prefix : String
  pub last_used_at : Option Date
  pub revoked_at : Option Date
  pub created_at : Date

-- what the list of members selects of a user
pub record MemberUser : Type 0 where
  pub id : String
  pub email : String
  pub name : Option String
