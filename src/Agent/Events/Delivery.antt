-- ===== src/Agent/Events/Delivery.antt =====
-- Which observers a message reaches in src/agent/agent-events.service.ts.
use text.Mathlib.TextEquality.{starts_with_iff}
use text.Mathlib.TextPositions.{len-append, slice-append_right}
use lotus_build_server.Base.{
  ℕ, String, ◌<>◌, ◌≡◌, ◌≢◌, refl, Option, none, some, List, [], ◌∷◌, eq_iff, arith, All,
}
use lotus_build_server.World.Data.{AgentEvent, ChannelPayload, event, stream_end}
use lotus_build_server.Agent.Publish.{channel_prefix}
use lotus_build_server.Agent.Events.{
  Effect, AgentEvents, lookup, delete, remove_found, remove_subject, deliver, handle_message,
}

pub lookup-delete_same :
    (run_id : String) (subjects : List (String × ℕ)) → lookup run_id (delete run_id subjects) ≡ none
unfolding lookup delete
lookup-delete_same run_id [] = refl
lookup-delete_same run_id ((id, subject) ∷ rest) =
    ground (arith, eq_iff id run_id, lookup-delete_same run_id rest)

pub lookup-delete_other :
    (run_id other : String) (subjects : List (String × ℕ))
    → other ≢ run_id
    → lookup other (delete run_id subjects) ≡ lookup other subjects
unfolding lookup delete
lookup-delete_other run_id other [] differ = refl
lookup-delete_other run_id other ((id, subject) ∷ rest) differ =
    ground (arith, eq_iff id run_id, eq_iff id other, lookup-delete_other run_id other rest differ)

-- The channel of a run gives back the run.
handle_message_of_run :
    (state : AgentEvents) (run_id : String) (payload : Option ChannelPayload)
    → handle_message state (channel_prefix <> run_id) payload
      ≡ deliver state run_id (lookup run_id state.subjects) payload
unfolding handle_message
handle_message_of_run state run_id payload =
    rw ((starts_with_iff (channel_prefix <> run_id) channel_prefix).1 (run_id, refl))
      (rw (len-append channel_prefix run_id) (rw (slice-append_right channel_prefix run_id) refl))

-- The effect is on the subject that was found for the run, or ends the subscription to its channel.
abbrev pub IsFor : Option ℕ → String → Effect → Type 0
IsFor found run_id (Effect.next subject e) = found ≡ some subject
IsFor found run_id (Effect.complete subject) = found ≡ some subject
IsFor found run_id (Effect.unsubscribe channel) = channel ≡ channel_prefix <> run_id
IsFor found run_id (Effect.subscribe channel) = ⊥

remove_isolated :
    (state : AgentEvents) (run_id other : String) (found : Option ℕ)
    → other ≢ run_id
    → (lookup other (remove_found state run_id found).0.subjects ≡ lookup other state.subjects)
      × All (IsFor (lookup run_id state.subjects) run_id) (remove_found state run_id found).1
unfolding remove_found
remove_isolated state run_id other none differ = (refl, tt)
remove_isolated state run_id other (some subject) differ =
    (lookup-delete_other run_id other state.subjects differ, (refl, tt))

deliver_isolated :
    (state : AgentEvents) (run_id other : String) (found : Option ℕ)
    (payload : Option ChannelPayload)
    → other ≢ run_id
    → lookup run_id state.subjects ≡ found
    → (lookup other (deliver state run_id found payload).0.subjects ≡ lookup other state.subjects)
      × All (IsFor (lookup run_id state.subjects) run_id) (deliver state run_id found payload).1
unfolding deliver remove_subject
deliver_isolated state run_id other none payload differ e = (refl, tt)
deliver_isolated state run_id other (some subject) none differ e = (refl, tt)
deliver_isolated state run_id other (some subject) (some (stream_end id)) differ e =
    let (kept, for_run) =
      remove_isolated state run_id other (lookup run_id state.subjects) differ in
    (kept, (e, for_run))
deliver_isolated state run_id other (some subject) (some (event body)) differ e = (refl, (e, tt))

-- A message on the channel of a run, also a malformed one, concerns no other run: what other runs find
-- in the table stays, and each effect is on the subject of this run or ends its subscription.
pub handle_message_isolated :
    (state : AgentEvents) (run_id other : String) (payload : Option ChannelPayload)
    → other ≢ run_id
    → (lookup other (handle_message state (channel_prefix <> run_id) payload).0.subjects
        ≡ lookup other state.subjects)
      × All
          (IsFor (lookup run_id state.subjects) run_id)
          (handle_message state (channel_prefix <> run_id) payload).1
handle_message_isolated state run_id other payload differ =
    rw (handle_message_of_run state run_id payload)
      (deliver_isolated state run_id other (lookup run_id state.subjects) payload differ refl)

ended :
    (state : AgentEvents) (run_id : String) (subject : ℕ)
    → lookup run_id state.subjects ≡ some subject
    → remove_subject state run_id ≡ (
      record { subjects = delete run_id state.subjects; made = state.made },
      Effect.unsubscribe (channel_prefix <> run_id) ∷ [],
    )
unfolding remove_subject remove_found
ended state run_id subject e = rw e refl

-- Where a run has a subject, an event on its channel is passed to that subject and nothing else happens;
-- the end marker completes the subject, ends the subscription and takes the run from the table.
pub handle_message_delivers :
    (state : AgentEvents) (run_id marked : String) (subject : ℕ) (e : AgentEvent)
    → lookup run_id state.subjects ≡ some subject
    → (let channel = channel_prefix <> run_id in
        (handle_message state channel (some (event e)) ≡ (state, Effect.next subject e ∷ []))
        × ((handle_message state channel (some (stream_end marked))).1
            ≡ Effect.complete subject ∷ Effect.unsubscribe channel ∷ [])
        × (lookup run_id (handle_message state channel (some (stream_end marked))).0.subjects
            ≡ none))
unfolding deliver
handle_message_delivers state run_id marked subject e found =
    rw (handle_message_of_run state run_id (some (event e))) (
      rw (handle_message_of_run state run_id (some (stream_end marked))) (
        rw found (
          rw (ended state run_id subject found)
            (refl, refl, lookup-delete_same run_id state.subjects))))
