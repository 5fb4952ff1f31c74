-- ===== src/Api/AgentController.antt =====
-- src/agent/agent.controller.ts. `uuid` is ParseUUIDPipe and `model` the configured model. Of the stream
-- of events the request gets the subject; the pipe behind it is left out.
use lotus_build_server.Base.{ℕ, String, Option, none, some, List, ◌<>◌}
use lotus_build_server.World.Data.{AgentRun, AgentStep, PaginationQuery}
use lotus_build_server.World.Calls.{Call, RedisCall}
use lotus_build_server.World.Exec.{Result, ok, World, Exec, lift, pure, ◌>>=◌, ◌>>◌, act}
use lotus_build_server.Pagination.{Page}
use lotus_build_server.AgentRuns
use lotus_build_server.Agent.Publish.{channel_prefix}
use lotus_build_server.Agent.Events.{AgentEvents, Effect, lookup, observe}
use lotus_build_server.Auth.{AuthenticatedRequest, current_actor}

-- what `observe` subscribes to, where it has no subject for the run
abbrev pub subscribe_new : World → String → Option ℕ → Exec (Result (Unit {0}))
subscribe_new w run_id (some subject) h = (ok (ok tt), h)
subscribe_new w run_id none h =
    let (r, h') = act w (Call.redis (RedisCall.subscribe (channel_prefix <> run_id))) h in
    (ok r, h')

module _ (w : World) (uuid : String → Result String) (organization : String)
    (request : AuthenticatedRequest) where
  abbrev pub create : String → String → String → Exec AgentRun
  create model session prompt = do
    organization_id ← lift (uuid organization)
    session_id ← lift (uuid session)
    actor ← current_actor request
    AgentRuns.create w model organization_id session_id actor prompt

  abbrev pub list : String → PaginationQuery → Exec (Page AgentRun)
  list session pagination = do
    organization_id ← lift (uuid organization)
    session_id ← lift (uuid session)
    actor ← current_actor request
    AgentRuns.list w organization_id session_id actor pagination

  abbrev pub get : String → Exec AgentRun
  get run = do
    organization_id ← lift (uuid organization)
    run_id ← lift (uuid run)
    actor ← current_actor request
    AgentRuns.get_by_id w organization_id run_id actor

  abbrev pub list_steps : String → PaginationQuery → Exec (Page AgentStep)
  list_steps run pagination = do
    organization_id ← lift (uuid organization)
    run_id ← lift (uuid run)
    actor ← current_actor request
    AgentRuns.list_steps w organization_id run_id actor pagination

  abbrev pub cancel : String → Exec (Unit {0})
  cancel run = do
    organization_id ← lift (uuid organization)
    run_id ← lift (uuid run)
    actor ← current_actor request
    AgentRuns.cancel w organization_id run_id actor

  -- the subject of `observe`, with the table and the effects that it leaves; a failure to subscribe is
  -- thrown, and the table behind it is that of `observe`
  abbrev pub events : AgentEvents → String → Exec (ℕ × AgentEvents × List Effect)
  events state run = do
    organization_id ← lift (uuid organization)
    run_id ← lift (uuid run)
    actor ← current_actor request
    AgentRuns.get_by_id w organization_id run_id actor
    subscribed ← subscribe_new w run_id (lookup run_id state.subjects)
    let (outcome, state', effects) = observe subscribed state run_id
    subject ← lift outcome
    pure (subject, state', effects)
