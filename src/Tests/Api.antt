-- ===== src/Tests/Api.antt =====
-- The theorems on the sessions, the runs and the pages of the API, at work on concrete services.
use lotus_build_server.Base.{
  ℕ, String, ◌≡◌, refl, ap, ◌∙◌, ◌≢◌, ◌↔◌, inl, inr, Option, none, some, List, [], ◌∷◌, ◌++◌, ◌==◌,
  take, drop, eq_iff, arith, if◌then◌else◌,
}
use lotus_build_server.World.Data.{MessageRole, AgentRunStatus, PaginationQuery, Session}
use lotus_build_server.World.Calls.{PageQuery, SortField, Direction}
use lotus_build_server.World.Exec.{ok}
use lotus_build_server.World.Grows.{Extends}
use lotus_build_server.Pagination.Pages.{Selects, follow, follow_complete}
use lotus_build_server.Sessions
use lotus_build_server.Sessions.{UpdateSession, CreateMessage}
use lotus_build_server.Sessions.Access.{MayAccess, missing, get_by_id_iff, hidden}
use lotus_build_server.Sessions.Scope.{Scoped, sessions-IsScoped}
use lotus_build_server.AgentRuns
use lotus_build_server.AgentRuns.Scope.{Scoped as RunsScoped}
use lotus_build_server.AgentRuns.Enqueued.{queued, job_of, queued-create}
use lotus_build_server.AgentRuns.Cancelled.{
  keys_set, running_run, refusal, IsRefused, keys_set-cancel,
}
use lotus_build_server.Agent.Loop.{cancel_key}
use lotus_build_server.Tests.Services.{world, session, run_with, alice, bob}

abbrev first_page : PaginationQuery
first_page = record { limit = some 10; cursor = none }

abbrev rename : UpdateSession
rename = record { title = some "Renamed"; status = none }

abbrev greeting : CreateMessage
greeting = record { role = MessageRole.user; content = "hello" }

get_by_id_iff_example :
    ((Sessions.get_by_id world "o1" "s1" alice []).0 ≡ ok session)
    ↔ ((some session ≡ some session) × MayAccess alice session)
get_by_id_iff_example = get_by_id_iff world "o1" "s1" alice [] (some session) session refl

alice_bob : ◌≢◌ {A = String} "alice" "bob"
alice_bob = ground (arith, eq_iff "alice" "bob")

not_bobs : (other : Session) → some session ≡ some other → ¬ MayAccess bob other
not_bobs other e access =
    let same : session ≡ other = cc in
    elim access [
      | inl no_member ↦ no_member refl
      | inr own ↦ alice_bob (ap (λ (s : Session). s.creator_id) same ∙ own)
    ]

hidden_example :
    (Sessions.get_by_id world "o1" "s1" bob [] ≡ missing world "o1" "s1" bob [] (some session))
    × (Sessions.update world "o1" "s1" bob rename []
        ≡ missing world "o1" "s1" bob [] (some session))
    × (Sessions.list_messages world "o1" "s1" bob first_page []
        ≡ missing world "o1" "s1" bob [] (some session))
    × (Sessions.create_message world "o1" "s1" bob greeting []
        ≡ missing world "o1" "s1" bob [] (some session))
hidden_example =
    hidden world "o1" "s1" bob [] (some session) first_page rename greeting refl not_bobs

sessions-IsScoped_example :
    Extends (Scoped world "o1" "s1" alice []) [] (Sessions.create world "o1" "alice" "Fix" []).1
    × Extends
        (Scoped world "o1" "s1" alice [])
        []
        (Sessions.list world "o1" alice first_page none []).1
    × Extends (Scoped world "o1" "s1" alice []) [] (Sessions.get_by_id world "o1" "s1" alice []).1
    × Extends
        (Scoped world "o1" "s1" alice [])
        []
        (Sessions.update world "o1" "s1" alice rename []).1
    × Extends
        (Scoped world "o1" "s1" alice [])
        []
        (Sessions.list_messages world "o1" "s1" alice first_page []).1
    × Extends
        (Scoped world "o1" "s1" alice [])
        []
        (Sessions.create_message world "o1" "s1" alice greeting []).1
sessions-IsScoped_example =
    sessions-IsScoped world "o1" "s1" alice [] "Fix" first_page none rename greeting

queued-create_example :
    queued (AgentRuns.create world "m" "o1" "s1" alice "fix it" []).1
    ≡ job_of "fix it" (AgentRuns.create world "m" "o1" "s1" alice "fix it" []).0 ++ queued []
queued-create_example = queued-create world "m" "o1" "s1" alice "fix it" []

keys_set-cancel_example :
    (keys_set (AgentRuns.cancel world "o1" "r1" alice []).1
      ≡ (if running_run (some (run_with AgentRunStatus.running)) then cancel_key "r1" ∷ [] else [])
        ++ keys_set [])
    × IsRefused
        (refusal (some (run_with AgentRunStatus.running)))
        (AgentRuns.cancel world "o1" "r1" alice []).0
keys_set-cancel_example =
    keys_set-cancel world "o1" "r1" alice [] (some (run_with AgentRunStatus.running)) refl

-- Two rows, sorted by their names as the query says.
abbrev sorted_names : List (SortField × Direction) → List String
sorted_names ((field, Direction.desc) ∷ order_by) = "b" ∷ "a" ∷ []
sorted_names _ = "a" ∷ "b" ∷ []

-- the rows from the named one on
abbrev from_name : List String → Option String → List String
from_name names none = names
from_name [] (some name) = []
from_name (x ∷ names) (some name) =
    let rest = from_name names (some name) in if x == name then x ∷ names else rest

abbrev find_names : PageQuery → List String
find_names query =
    take query.take (drop query.skip (from_name (sorted_names query.order_by) query.cursor))

abbrev descending : List (SortField × Direction)
descending = (SortField.id, Direction.desc) ∷ []

names-Selects : Selects (λ name. name) descending ("b" ∷ "a" ∷ []) find_names
names-Selects = record {
  from_start = λ n skip. refl;
  from_cursor = λ n skip before x behind e. located n skip before x behind e;
}
  where
    located :
        (n skip : ℕ) (before : List String) (x : String) (behind : List String)
        → "b" ∷ "a" ∷ [] ≡ before ++ x ∷ behind
        → take n (drop skip (from_name ("b" ∷ "a" ∷ []) (some x))) ≡ take n (drop skip (x ∷ behind))
    located n skip [] x behind e =
        let first : "b" ≡ x = cc in
        let rest : "a" ∷ [] ≡ behind = cc in rw (← first) (rw (← rest) refl)
    located n skip (y ∷ []) x behind e =
        let second : "a" ≡ x = cc in let rest : [] ≡ behind = cc in rw (← second) (rw (← rest) refl)
    located n skip (y ∷ (z ∷ [])) x behind e = cc
    located n skip (y ∷ (z ∷ (u ∷ before))) x behind e = cc

follow_complete_example :
    follow (λ name. name) find_names descending 1 3 none ≡ some ("b" ∷ "a" ∷ [])
follow_complete_example =
    follow_complete (λ name. name) ("b" ∷ "a" ∷ []) find_names descending names-Selects
      (refl, (refl, tt)) 0
