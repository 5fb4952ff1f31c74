-- ===== src/Tests/Events.antt =====
-- The theorems on the table of subjects, at work on two runs.
use lotus_build_server.Base.{String, ◌<>◌, ◌≡◌, ◌≢◌, refl, none, some, [], ◌∷◌, All, eq_iff, arith}
use lotus_build_server.World.Data.{AgentEvent, EventBody, event, stream_end}
use lotus_build_server.World.Exec.{ok, throw, non_error}
use lotus_build_server.Agent.Publish.{channel_prefix}
use lotus_build_server.Agent.Events.{AgentEvents, Effect, lookup, handle_message, observe}
use lotus_build_server.Agent.Events.Delivery.{
  IsFor, handle_message_isolated, handle_message_delivers,
}
use lotus_build_server.Agent.Events.Subjects.{IsWellFormed, Reachable, Reachable-IsWellFormed}
use lotus_build_server.Agent.Events.Observed.{observe_again}

abbrev two_runs : AgentEvents
two_runs = record { subjects = ("r1", 0) ∷ ("r2", 1) ∷ []; made = 2 }

abbrev ended : AgentEvent
ended = record { run_id = "r1"; body = EventBody.run_completed }

r2_r1 : ◌≢◌ {A = String} "r2" "r1"
r2_r1 = ground (arith, eq_iff "r2" "r1")

finds_first : lookup "r1" two_runs.subjects ≡ some 0
unfolding lookup
finds_first = refl

finds_none : lookup "r3" two_runs.subjects ≡ none
unfolding lookup
finds_none = refl

handle_message_isolated_example :
    (lookup "r2"
        (handle_message two_runs (channel_prefix <> "r1") (some (stream_end "r1"))).0.subjects
      ≡ lookup "r2" two_runs.subjects)
    × All
        (IsFor (lookup "r1" two_runs.subjects) "r1")
        (handle_message two_runs (channel_prefix <> "r1") (some (stream_end "r1"))).1
handle_message_isolated_example =
    handle_message_isolated two_runs "r1" "r2" (some (stream_end "r1")) r2_r1

handle_message_delivers_example :
    (handle_message two_runs (channel_prefix <> "r1") (some (event ended))
      ≡ (two_runs, Effect.next 0 ended ∷ []))
    × ((handle_message two_runs (channel_prefix <> "r1") (some (stream_end "r1"))).1
        ≡ Effect.complete 0 ∷ Effect.unsubscribe (channel_prefix <> "r1") ∷ [])
    × (lookup "r1"
          (handle_message two_runs (channel_prefix <> "r1") (some (stream_end "r1"))).0.subjects
        ≡ none)
handle_message_delivers_example = handle_message_delivers two_runs "r1" "r1" 0 ended finds_first

abbrev no_runs : AgentEvents
no_runs = record { subjects = []; made = 0 }

abbrev one_observed : AgentEvents
one_observed = (observe (ok tt) no_runs "r1").1

Reachable-IsWellFormed_example :
    IsWellFormed (handle_message one_observed (channel_prefix <> "r1") (some (stream_end "r1"))).0
Reachable-IsWellFormed_example = Reachable-IsWellFormed (
    Reachable.received (channel_prefix <> "r1") (some (stream_end "r1"))
      (Reachable.observed (ok tt) "r1" Reachable.start refl) refl)

observe_again_example :
    ((observe (throw non_error) two_runs "r3").0 ≡ throw non_error)
    × (observe (ok tt) (observe (throw non_error) two_runs "r3").1 "r3"
        ≡ (ok 2, (observe (throw non_error) two_runs "r3").1, []))
observe_again_example = observe_again two_runs "r3" non_error (ok tt) finds_none
