-- ===== src/FirestoreRules.antt =====
-- firestore.rules: who reads the documents that are mirrored, given those that are stored.
pub mod Stored
pub mod Agreement
use lotus_build_server.Base.{
  String, Bool, true, false, not, ◌&&◌, ◌||◌, Option, none, some, List, [], ◌∷◌, ◌==◌,
  if◌then◌else◌,
}
use lotus_build_server.World.Data.{MembershipRole, MirroredMember}
use lotus_build_server.World.Calls.{Document}
use lotus_build_server.Sessions.{is_member}

abbrev pub Store : Type 0
Store = List String → Option Document

-- `memberPath(orgId)` for the user who is signed in
abbrev pub member_path : String → String → List String
member_path organization_id uid = "organizations" ∷ organization_id ∷ "members" ∷ uid ∷ []

-- the conditions on the member's document; where there is none, the rule does not hold
unfoldable pub reads_as : Option Document → String → Bool
reads_as (some (Document.member m)) session_creator_id =
    not (is_member m.role) || m.user_id == session_creator_id
reads_as _ session_creator_id = false

-- `canReadPrivate(orgId, sessionCreatorId)`, where a request that is not signed in has no user
unfoldable pub can_read_private : Store → Option String → String → String → Bool
can_read_private documents none organization_id session_creator_id = false
can_read_private documents (some uid) organization_id session_creator_id =
    reads_as (documents (member_path organization_id uid)) session_creator_id

-- what the rules read of a run's or a message's document
unfoldable pub can_read_document : Store → Option String → Option Document → Bool
can_read_document documents uid (some (Document.run r)) =
    can_read_private documents uid r.organization_id r.session_creator_id
can_read_document documents uid (some (Document.message m)) =
    can_read_private documents uid m.organization_id m.session_creator_id
can_read_document documents uid _ = false

-- `allow read`, for a document's path
unfoldable pub allows_read : Store → Option String → List String → Bool
allows_read documents uid (collection ∷ id ∷ []) =
    collection == "agentRuns" && can_read_document documents uid (documents (collection ∷ id ∷ []))
allows_read documents uid (collection ∷ id ∷ inner ∷ name ∷ []) =
    if collection == "agentRuns" && inner == "steps"
    then can_read_document documents uid (documents (collection ∷ id ∷ []))
    else collection == "sessions"
      && inner == "messages"
      && can_read_document documents uid (documents (collection ∷ id ∷ inner ∷ name ∷ []))
allows_read documents uid _ = false
