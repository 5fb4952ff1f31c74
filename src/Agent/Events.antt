-- ===== src/Agent/Events.antt =====
-- The receiving half of src/agent/agent-events.service.ts: the table of subjects of one process. A subject
-- is named by its number, in the order in which they are made, and what is done to it is an effect. A
-- message is `none` where its text is no JSON. Logging is left out, with the failure to unsubscribe.
pub mod Delivery
pub mod Subjects
pub mod Observed
use Prim.Native.String.{len, slice}
use text.Mathlib.Text.{starts_with}
use lotus_build_server.Base.{
  ℕ, ◌+◌, String, ◌<>◌, Bool, true, false, not, Option, none, some, List, [], ◌∷◌, ◌++◌, map,
  filter, ◌==◌, if◌then◌else◌,
}
use lotus_build_server.World.Data.{AgentEvent, ChannelPayload, event, stream_end}
use lotus_build_server.World.Exec.{Thrown, Result, ok, throw}
use lotus_build_server.Agent.Publish.{channel_prefix}

pub data Effect : Type 0 where
  next : ℕ → AgentEvent → Effect
  complete : ℕ → Effect
  subscribe unsubscribe : String → Effect

pub record AgentEvents : Type 0 where
  pub subjects : List (String × ℕ)
  pub made : ℕ

-- `this.subjects.get(runId)`
unfoldable pub lookup : String → List (String × ℕ) → Option ℕ
lookup run_id [] = none
lookup run_id ((id, subject) ∷ rest) = if id == run_id then some subject else lookup run_id rest

-- `this.subjects.delete(runId)`
unfoldable pub delete : String → List (String × ℕ) → List (String × ℕ)
delete run_id subjects = filter (λ entry. not (entry.0 == run_id)) subjects

remove_found : AgentEvents → String → Option ℕ → AgentEvents × List Effect
remove_found state run_id none = (state, [])
remove_found state run_id (some subject) = (
  record { subjects = delete run_id state.subjects; made = state.made },
  unsubscribe (channel_prefix <> run_id) ∷ [],
)

-- `removeSubject`
unfoldable pub remove_subject : AgentEvents → String → AgentEvents × List Effect
unfolding remove_found
remove_subject state run_id = remove_found state run_id (lookup run_id state.subjects)

-- `handleMessage` from the lookup of the subject on
deliver : AgentEvents → String → Option ℕ → Option ChannelPayload → AgentEvents × List Effect
deliver state run_id none payload = (state, [])
deliver state run_id (some subject) none = (state, [])
deliver state run_id (some subject) (some (stream_end id)) =
    let (state', effects) = remove_subject state run_id in (state', complete subject ∷ effects)
deliver state run_id (some subject) (some (event e)) = (state, next subject e ∷ [])

unfoldable pub handle_message :
    AgentEvents → String → Option ChannelPayload → AgentEvents × List Effect
unfolding deliver
handle_message state channel payload =
    let run_id = slice channel (len channel_prefix) (len channel) in
    if not (starts_with channel channel_prefix)
    then (state, [])
    else deliver state run_id (lookup run_id state.subjects) payload

-- `onModuleDestroy`
unfoldable pub on_module_destroy : AgentEvents → AgentEvents × List Effect
on_module_destroy state =
    (record { subjects = []; made = state.made }, map (λ entry. complete entry.1) state.subjects)

-- what `observe` does with the subject that it found, given the outcome of `subscribe`
observe_found :
    Result (Unit {0}) → AgentEvents → String → Option ℕ → Result ℕ × AgentEvents × List Effect
observe_found subscribed state run_id (some subject) = (ok subject, state, [])
observe_found subscribed state run_id none = (
  settle subscribed,
  record { subjects = state.subjects ++ (run_id, state.made) ∷ []; made = state.made + 1 },
  subscribe (channel_prefix <> run_id) ∷ [],
)
  where
    settle : Result (Unit {0}) → Result ℕ
    settle (ok u) = ok state.made
    settle (throw e) = throw e

-- `observe`: the subject is stored before the subscription is awaited
unfoldable pub observe :
    Result (Unit {0}) → AgentEvents → String → Result ℕ × AgentEvents × List Effect
unfolding observe_found
observe subscribed state run_id =
    observe_found subscribed state run_id (lookup run_id state.subjects)
