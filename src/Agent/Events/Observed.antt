-- ===== src/Agent/Events/Observed.antt =====
-- What `observe` of src/agent/agent-events.service.ts leaves behind where the subscription fails.
use lotus_build_server.Base.{ℕ, String, ◌≡◌, refl, ◌∙◌, none, some, [], eq_iff}
use lotus_build_server.World.Exec.{Thrown, Result, ok, throw}
use lotus_build_server.Agent.Events.{AgentEvents, lookup, observe, observe_found}
use lotus_build_server.Agent.Events.Subjects.{lookup-append}

observe_found_known :
    (subscribed : Result (Unit {0})) (state : AgentEvents) (run_id : String) (subject : ℕ)
    → lookup run_id state.subjects ≡ some subject
    → observe subscribed state run_id ≡ (ok subject, state, [])
unfolding observe observe_found
observe_found_known subscribed state run_id subject e = rw e refl

observe_fails :
    (state : AgentEvents) (run_id : String) (e : Thrown)
    → lookup run_id state.subjects ≡ none
    → ((observe (throw e) state run_id).0 ≡ throw e)
      × (lookup run_id (observe (throw e) state run_id).1.subjects ≡ some state.made)
unfolding observe observe_found
observe_fails state run_id e missing = rw missing (
  refl,
  lookup-append run_id run_id state.made state.subjects missing
      ∙ rw ((eq_iff run_id run_id).1 refl) refl,
)

-- Where the subscription for a run fails, `observe` throws, but the subject stays in the table: the next
-- `observe` of that run returns it without a subscription.
pub observe_again :
    (state : AgentEvents) (run_id : String) (e : Thrown) (subscribed : Result (Unit {0}))
    → lookup run_id state.subjects ≡ none
    → (let state' = (observe (throw e) state run_id).1 in
        ((observe (throw e) state run_id).0 ≡ throw e)
        × (observe subscribed state' run_id ≡ (ok state.made, state', [])))
observe_again state run_id e subscribed missing =
    let (thrown, there) = observe_fails state run_id e missing in
    (thrown, observe_found_known subscribed _ run_id state.made there)
