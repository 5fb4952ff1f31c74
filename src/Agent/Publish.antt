-- ===== src/Agent/Publish.antt =====
-- The publishing half of src/agent/agent-events.service.ts. A message of a channel is the value that its
-- JSON text stands for.
use lotus_build_server.Base.{String, ◌<>◌}
use lotus_build_server.World.Data.{EventBody, event, stream_end}
use lotus_build_server.World.Calls.{Call, RedisCall}
use lotus_build_server.World.Exec.{World, Exec, act}

abbrev pub channel_prefix : String
channel_prefix = "agent-events:"

module _ (w : World) where
  -- `emit({ type, runId, data })`
  unfoldable pub emit : String → EventBody → Exec (Unit {0})
  emit run_id body = act w (
      Call.redis (
        RedisCall.publish (channel_prefix <> run_id)
          (event (record { run_id = run_id; body = body }))))

  unfoldable pub complete : String → Exec (Unit {0})
  complete run_id =
      act w (Call.redis (RedisCall.publish (channel_prefix <> run_id) (stream_end run_id)))
