-- ===== src/Mirror.antt =====
-- src/firebase/firestore-mirror.service.ts: the documents that are mirrored into Firestore.
use lotus_build_server.Base.{String, [], ◌∷◌}
use lotus_build_server.Base.Text.{decimal}
use lotus_build_server.World.Data.{
  RunUpdate, MirroredRun, MirroredStep, MirroredMessage, MirroredMember,
}
use lotus_build_server.World.Calls.{Call, FirestoreCall, Document}
use lotus_build_server.World.Exec.{World, Exec, act}

module _ (w : World) where
  abbrev pub set_run : String → MirroredRun → Exec (Unit {0})
  set_run run_id run =
      act w (Call.firestore (FirestoreCall.merge ("agentRuns" ∷ run_id ∷ []) (Document.run run)))

  abbrev pub update_run : String → RunUpdate → Exec (Unit {0})
  update_run run_id update = act w (
      Call.firestore (FirestoreCall.merge ("agentRuns" ∷ run_id ∷ []) (Document.run_update update)))

  abbrev pub add_step : String → MirroredStep → Exec (Unit {0})
  add_step run_id step = act w (
      Call.firestore (
        FirestoreCall.create ("agentRuns" ∷ run_id ∷ "steps" ∷ decimal step.index ∷ [])
          (Document.step step)))

  abbrev pub add_message : String → MirroredMessage → Exec (Unit {0})
  add_message message_id message = act w (
      Call.firestore (
        FirestoreCall.create ("sessions" ∷ message.session_id ∷ "messages" ∷ message_id ∷ [])
          (Document.message message)))

  abbrev pub set_member : String → String → MirroredMember → Exec (Unit {0})
  set_member organization_id firebase_uid member = act w (
      Call.firestore (
        FirestoreCall.merge ("organizations" ∷ organization_id ∷ "members" ∷ firebase_uid ∷ [])
          (Document.member member)))
