-- ===== src/World/Data.antt =====
-- The rows of prisma/schema.prisma, the documents of src/firebase/firestore-mirror.service.ts, and the
-- values that pass between the parts. A date is its number of milliseconds.
use lotus_build_server.Base.{ℕ, String, Bool, Option, List}

abbrev pub Date : Type 0
Date = ℕ

pub data MembershipRole : Type 0 where
  owner admin member : MembershipRole

pub data SessionStatus : Type 0 where
  active archived deleted : SessionStatus

pub data MessageRole : Type 0 where
  user assistant system : MessageRole

pub data AgentRunStatus : Type 0 where
  running completed failed cancelled : AgentRunStatus

pub data AgentStepType : Type 0 where
  assistant tool_call tool_result : AgentStepType

pub record Session : Type 0 where
  pub id : String
  pub organization_id : String
  pub creator_id : String
  pub title : String
  pub status : SessionStatus
  pub created_at : Date
  pub updated_at : Date

pub record Message : Type 0 where
  pub id : String
  pub session_id : String
  pub author_id : Option String
  pub role : MessageRole
  pub content : String
  pub created_at : Date

pub record AgentRun : Type 0 where
  pub id : String
  pub organization_id : String
  pub session_id : String
  pub creator_id : String
  pub prompt : String
  pub model : String
  pub status : AgentRunStatus
  pub error : Option String
  pub sandbox_id : Option String
  pub started_at : Date
  pub finished_at : Option Date

pub record AgentStep : Type 0 where
  pub id : String
  pub run_id : String
  pub index : ℕ
  pub type : AgentStepType
  pub name : Option String
  pub content : String
  pub created_at : Date

pub record User : Type 0 where
  pub id : String
  pub external_id : String
  pub email : String
  pub name : Option String
  pub created_at : Date

pub record Organization : Type 0 where
  pub id : String
  pub name : String
  pub slug : String
  pub created_at : Date

pub record Membership : Type 0 where
  pub id : String
  pub user_id : String
  pub organization_id : String
  pub role : MembershipRole
  pub created_at : Date

pub record ApiKey : Type 0 where
  pub id : String
  pub organization_id : String
  pub created_by_id : String
  pub name : String
  pub prefix : String
  pub hashed_secret : String
  pub last_used_at : Option Date
  pub revoked_at : Option Date
  pub created_at : Date

-- the authenticated user acting within an organization (auth.types.ts)
pub record OrgActor : Type 0 where
  pub user_id : String
  pub role : MembershipRole

-- a value of a tool's input; one that is no text is kept as a token
pub data Value : Type 0 where
  text : String → Value
  other : ℕ → Value

abbrev pub Input : Type 0
Input = List (String × Value)

-- a content block of a model's response
pub data Block : Type 0 where
  text : String → Block
  tool_use : String → String → Input → Block
  other : Block

pub data StopReason : Type 0 where
  tool_use other : StopReason

pub record Response : Type 0 where
  pub content : List Block
  pub stop_reason : StopReason

pub record ToolResult : Type 0 where
  pub tool_use_id : String
  pub content : String
  pub is_error : Bool

-- an entry of the `messages` array
pub data MessageParam : Type 0 where
  user : String → MessageParam
  assistant : List Block → MessageParam
  tool_results : List ToolResult → MessageParam

pub record ToolDefinition : Type 0 where
  pub name : String
  pub description : String
  pub properties : List (String × String)
  pub required : List String

-- the two partial updates of a run that the code writes
pub data RunUpdate : Type 0 where
  sandbox : String → RunUpdate
  finish : AgentRunStatus → Option String → Date → RunUpdate

pub data EventBody : Type 0 where
  run_started : String → EventBody
  assistant_text : String → EventBody
  tool_call : String → Input → EventBody
  tool_result : String → String → Bool → EventBody
  run_completed : EventBody
  run_failed : String → EventBody
  run_cancelled : EventBody

-- the event's `type` and `data` are its body
pub record AgentEvent : Type 0 where
  pub run_id : String
  pub body : EventBody

-- what a message of a run's channel holds
pub data ChannelPayload : Type 0 where
  event : AgentEvent → ChannelPayload
  stream_end : String → ChannelPayload

pub record MirroredRun : Type 0 where
  pub organization_id : String
  pub session_id : String
  pub session_creator_id : String
  pub creator_id : String
  pub prompt : String
  pub model : String
  pub status : AgentRunStatus
  pub error : Option String
  pub sandbox_id : Option String
  pub started_at : Date
  pub finished_at : Option Date

pub record MirroredStep : Type 0 where
  pub index : ℕ
  pub type : AgentStepType
  pub name : Option String
  pub content : String
  pub created_at : Date

pub record MirroredMessage : Type 0 where
  pub session_id : String
  pub organization_id : String
  pub session_creator_id : String
  pub author_id : Option String
  pub role : MessageRole
  pub content : String
  pub created_at : Date

-- the body of a request for a page (src/common/pagination.ts)
pub record PaginationQuery : Type 0 where
  pub limit : Option ℕ
  pub cursor : Option String

pub record MirroredMember : Type 0 where
  pub user_id : String
  pub role : MembershipRole
  pub created_at : Date

-- what a verified token says (`DecodedIdToken` of Firebase), a claim that is missing or no text being
-- `none`
pub record DecodedIdToken : Type 0 where
  pub uid : String
  pub email : Option String
  pub email_verified : Bool
  pub sign_in_provider : String
  pub name : Option String
