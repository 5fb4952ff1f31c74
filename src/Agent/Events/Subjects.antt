-- ===== src/Agent/Events/Subjects.antt =====
-- The reachable states of the table of subjects of src/agent/agent-events.service.ts.
use lotus_build_server.Base.{
  ℕ, ◌<◌, String, ◌≡◌, refl, sym, ◌∙◌, Option, none, some, List, [], ◌∷◌, ◌++◌, ◌==◌, eq_iff, arith,
  if◌then◌else◌, Bool-cases, Option-cases, inl, inr, ◌⊎◌,
}
use text.Mathlib.Text.{starts_with}
use lotus_build_server.World.Data.{ChannelPayload, event, stream_end}
use lotus_build_server.World.Exec.{Result}
use lotus_build_server.Agent.Publish.{channel_prefix}
use lotus_build_server.Agent.Events.{
  AgentEvents, lookup, delete, remove_found, remove_subject, deliver, handle_message, observe_found,
  observe, on_module_destroy,
}
use lotus_build_server.Agent.Events.Delivery.{lookup-delete_same, lookup-delete_other}

-- A subject in the table was made, and only one run has it.
pub record IsWellFormed (state : AgentEvents) : Type 0 where
  pub was_made :
      (run_id : String) (subject : ℕ)
      → lookup run_id state.subjects ≡ some subject
      → subject < state.made
  pub is_unshared :
      (run_id other : String) (subject : ℕ)
      → lookup run_id state.subjects ≡ some subject
      → lookup other state.subjects ≡ some subject
      → run_id ≡ other

pub lookup-append :
    (key id : String) (subject : ℕ) (subjects : List (String × ℕ))
    → lookup key subjects ≡ none
    → lookup key (subjects ++ (id, subject) ∷ []) ≡ (if id == key then some subject else none)
unfolding lookup
lookup-append key id subject [] e = refl
lookup-append key id subject ((k, v) ∷ rest) e = ground (arith, lookup-append key id subject rest)

lookup-append_found :
    (key id : String) (subject found : ℕ) (subjects : List (String × ℕ))
    → lookup key subjects ≡ some found
    → lookup key (subjects ++ (id, subject) ∷ []) ≡ some found
unfolding lookup
lookup-append_found key id subject found [] e = cc
lookup-append_found key id subject found ((k, v) ∷ rest) e =
    ground (arith, lookup-append_found key id subject found rest)

-- What the table finds after a subject was added was there, or is the new one.
lookup_added :
    (key id : String) (subject found : ℕ) (subjects : List (String × ℕ))
    → lookup key (subjects ++ (id, subject) ∷ []) ≡ some found
    → (lookup key subjects ≡ some found) ⊎ ((id ≡ key) × (subject ≡ found))
lookup_added key id subject found subjects e = elim (Option-cases (lookup key subjects)) [
  | inl missing ↦ ground (arith, eq_iff id key, lookup-append key id subject subjects missing, e)
  | inr (other, there) ↦
      inl (there ∙ sym (lookup-append_found key id subject other subjects there) ∙ e)
]

-- What the table finds after a run was taken out was there.
lookup_kept :
    (key id : String) (found : ℕ) (subjects : List (String × ℕ))
    → lookup key (delete id subjects) ≡ some found
    → lookup key subjects ≡ some found
lookup_kept key id found subjects e = elim (Bool-cases (key == id)) [
  | inl same ↦
      let k : key ≡ id = (eq_iff key id).0 same in
      let gone : lookup key (delete id subjects) ≡ none = rw k (lookup-delete_same id subjects) in
      cc
  | inr differ ↦
      sym (lookup-delete_other id key subjects (λ same. let t = (eq_iff key id).1 same in cc)) ∙ e
]

observe_found-IsWellFormed :
    (subscribed : Result (Unit {0})) (state : AgentEvents) (run_id : String) (found : Option ℕ)
    → IsWellFormed state
    → IsWellFormed (observe_found subscribed state run_id found).1
unfolding observe_found
observe_found-IsWellFormed subscribed state run_id (some subject) wf = wf
observe_found-IsWellFormed subscribed state run_id none wf = record {
  was_made = λ r n e. elim (lookup_added r run_id state.made n state.subjects e) [
    | inl there ↦ omega (arith, wf.was_made r n there)
    | inr (k, q) ↦ omega (arith, q)
  ];
  is_unshared = λ r r' n e e'. elim (lookup_added r run_id state.made n state.subjects e) [
    | inl there ↦ elim (lookup_added r' run_id state.made n state.subjects e') [
      | inl there' ↦ wf.is_unshared r r' n there there'
      | inr (k, q) ↦ absurd (omega (arith, wf.was_made r n there, q))
    ]
    | inr (k, q) ↦ elim (lookup_added r' run_id state.made n state.subjects e') [
      | inl there' ↦ absurd (omega (arith, wf.was_made r' n there', q))
      | inr (k', q') ↦ sym k ∙ k'
    ]
  ];
}

remove_found-IsWellFormed :
    (state : AgentEvents) (run_id : String) (found : Option ℕ)
    → IsWellFormed state
    → IsWellFormed (remove_found state run_id found).0
unfolding remove_found
remove_found-IsWellFormed state run_id none wf = wf
remove_found-IsWellFormed state run_id (some subject) wf = record {
  was_made = λ r n e. wf.was_made r n (lookup_kept r run_id n state.subjects e);
  is_unshared = λ r r' n e e'.
      wf.is_unshared r r' n (lookup_kept r run_id n state.subjects e)
        (lookup_kept r' run_id n state.subjects e');
}

deliver-IsWellFormed :
    (state : AgentEvents) (run_id : String) (found : Option ℕ) (payload : Option ChannelPayload)
    → IsWellFormed state
    → IsWellFormed (deliver state run_id found payload).0
unfolding deliver remove_subject
deliver-IsWellFormed state run_id none payload wf = wf
deliver-IsWellFormed state run_id (some subject) none wf = wf
deliver-IsWellFormed state run_id (some subject) (some (stream_end id)) wf =
    remove_found-IsWellFormed state run_id (lookup run_id state.subjects) wf
deliver-IsWellFormed state run_id (some subject) (some (event e)) wf = wf

handle_message-IsWellFormed :
    (state : AgentEvents) (channel : String) (payload : Option ChannelPayload)
    → IsWellFormed state
    → IsWellFormed (handle_message state channel payload).0
unfolding handle_message
handle_message-IsWellFormed state channel payload wf =
    elim (Bool-cases (starts_with channel channel_prefix)) [
      | inl ours ↦ rw ours (deliver-IsWellFormed state _ _ payload wf)
      | inr others ↦ rw others wf
    ]

empty-IsWellFormed : (made : ℕ) → IsWellFormed (record { subjects = []; made = made })
unfolding lookup
empty-IsWellFormed made = record { was_made = λ r n e. cc; is_unshared = λ r r' n e e'. cc }

-- The states of the service: what observers, messages on any channel and the shutdown make of the empty
-- table, in any order and with any outcome of the subscriptions.
pub data Reachable : AgentEvents → Type 0 where
  start : Reachable (record { subjects = []; made = 0 })
  observed :
      {state state' : AgentEvents} (subscribed : Result (Unit {0})) (run_id : String)
      → Reachable state
      → state' ≡ (observe subscribed state run_id).1
      → Reachable state'
  received :
      {state state' : AgentEvents} (channel : String) (payload : Option ChannelPayload)
      → Reachable state
      → state' ≡ (handle_message state channel payload).0
      → Reachable state'
  destroyed :
      {state state' : AgentEvents}
      → Reachable state
      → state' ≡ (on_module_destroy state).0
      → Reachable state'

-- In each state that the service reaches, every subject in the table was made, and no two runs share
-- one.
pub Reachable-IsWellFormed : {state : AgentEvents} → Reachable state → IsWellFormed state
unfolding observe on_module_destroy
Reachable-IsWellFormed start = empty-IsWellFormed 0
Reachable-IsWellFormed (observed subscribed run_id before e) =
    rw e (observe_found-IsWellFormed subscribed _ run_id _ (Reachable-IsWellFormed before))
Reachable-IsWellFormed (received channel payload before e) =
    rw e (handle_message-IsWellFormed _ channel payload (Reachable-IsWellFormed before))
Reachable-IsWellFormed (destroyed before e) = rw e (empty-IsWellFormed _)
