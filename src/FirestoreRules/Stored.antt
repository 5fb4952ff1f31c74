-- ===== src/FirestoreRules/Stored.antt =====
-- The documents of Firestore behind a history of calls.
use lotus_build_server.Base.{
  String, ◌≡◌, refl, Bool, true, false, ◌&&◌, Option, none, some, List, [], ◌∷◌, ◌==◌, eq_iff,
  arith, if◌then◌else◌,
}
use lotus_build_server.World.Data.{MirroredRun, RunUpdate}
use lotus_build_server.World.Calls.{Call, Reply, FirestoreCall, Document, firestore}
use lotus_build_server.World.Exec.{Result, ok, Entry, History}

abbrev path_eq : List String → List String → Bool
path_eq [] [] = true
path_eq (a ∷ as_) (b ∷ bs) = a == b && path_eq as_ bs
path_eq _ _ = false

-- `set` with `{ merge: true }` of a partial update, on the fields that it has
abbrev updated : RunUpdate → MirroredRun → MirroredRun
updated (RunUpdate.sandbox id) r = record {
  organization_id = r.organization_id;
  session_id = r.session_id;
  session_creator_id = r.session_creator_id;
  creator_id = r.creator_id;
  prompt = r.prompt;
  model = r.model;
  status = r.status;
  error = r.error;
  sandbox_id = some id;
  started_at = r.started_at;
  finished_at = r.finished_at;
}
updated (RunUpdate.finish status error finished_at) r = record {
  organization_id = r.organization_id;
  session_id = r.session_id;
  session_creator_id = r.session_creator_id;
  creator_id = r.creator_id;
  prompt = r.prompt;
  model = r.model;
  status = status;
  error = error;
  sandbox_id = r.sandbox_id;
  started_at = r.started_at;
  finished_at = some finished_at;
}

abbrev merged : Document → Option Document → Document
merged (Document.run_update u) (some (Document.run r)) = Document.run (updated u r)
merged d _ = d

-- What a call stores, if it returned.
unfoldable pub written_by : (c : Call) → Result (Reply c) → Option (List String × Document)
written_by (firestore (FirestoreCall.merge path d)) (ok u) = some (path, d)
written_by (firestore (FirestoreCall.create path d)) (ok u) = some (path, d)
written_by _ r = none

unfoldable pub documents : History → List String → Option Document
documents [] path = none
documents (e ∷ h) path = after (written_by e.call e.reply) (documents h path)
  where
    after : Option (List String × Document) → Option Document → Option Document
    after none before = before
    after (some (p, d)) before = if path_eq p path then some (merged d before) else before

path_eq_refl : (path : List String) → path_eq path path ≡ true
path_eq_refl [] = refl
path_eq_refl (a ∷ path) = ground (arith, eq_iff a a, path_eq_refl path)

module _ (e : Entry) (h : History) where
  pub documents_other :
      (path : List String)
      → written_by e.call e.reply ≡ none
      → documents (e ∷ h) path ≡ documents h path
  unfolding documents
  documents_other path same = rw same refl

  pub documents_written :
      (path : List String) (d : Document)
      → written_by e.call e.reply ≡ some (path, d)
      → ((before : Option Document) → merged d before ≡ d)
      → documents (e ∷ h) path ≡ some d
  unfolding documents
  documents_written path d same whole = rw (same, path_eq_refl path, whole (documents h path)) refl
