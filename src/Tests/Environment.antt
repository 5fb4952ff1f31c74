-- ===== src/Tests/Environment.antt =====
-- The environments of src/config/env.validation.spec.ts: a full one, and one without DATABASE_URL.
use Prim.Native.Char.{code}
use lotus_build_server.Base.{
  ℕ, ◌+◌, ◌-◌, ◌*◌, ◌≤◌, String, ◌≡◌, refl, false, not, ◌==◌, Option, none, some, List, [], ◌∷◌,
  if◌then◌else◌,
}
use lotus_build_server.Base.Text.{is_empty, trim}
use lotus_build_server.World.Exec.{Thrown, ok, throw}
use lotus_build_server.World.Grows.{Extends}
use lotus_build_server.Agent.Loop.{execute}
use lotus_build_server.Agent.Loop.Budget.{requests}
use lotus_build_server.Configuration.Schema.{Issue, combine, split_commas}
use lotus_build_server.Configuration.{
  Zod, NodeEnv, Env, parse_env, checked, validate_env, loop_config,
}
use lotus_build_server.Configuration.Bounds.{IsBounded, IsTimely, validate_env-IsBounded}
use lotus_build_server.Tests.Services.{world}

abbrev number_from : ℕ → String → ℕ
number_from n String.[] = n
number_from n (String.◌∷◌ c s) = number_from (n * 10 + (code c - 48)) s

abbrev coerced : Option String → Option ℕ
coerced none = none
coerced (some s) = some (number_from 0 s)

abbrev account : String → Option String
account key =
    if key == "project_id"
    then some "test-project"
    else if key == "client_email"
    then some "admin@test-project.iam.gserviceaccount.com"
    else some "key"

abbrev issues : String → Option String → List Issue
issues key none = record { path = key ∷ []; message = "Required" } ∷ []
issues key (some s) = record { path = key ∷ []; message = "Invalid" } ∷ []

abbrev zod : Zod
zod = record {
  coerce_integer = coerced;
  is_url = λ s. not (is_empty s);
  is_email = λ s. not (is_empty s);
  parse_json = λ s. some account;
  issues_of = issues;
}

abbrev find : List (String × String) → String → Option String
find [] key = none
find ((k, v) ∷ variables) key = let rest = find variables key in if k == key then some v else rest

abbrev variables : List (String × String)
variables =
    ("NODE_ENV", "test")
    ∷ ("PORT", "3000")
    ∷ ("DATABASE_URL", "postgresql://localhost:5432/db")
    ∷ ("FIREBASE_SERVICE_ACCOUNT_JSON", "{}")
    ∷ ("CORS_ORIGINS", "http://localhost:5173, https://app.example.com")
    ∷ ("RATE_LIMIT_TTL_SECONDS", "60")
    ∷ ("RATE_LIMIT_MAX", "100")
    ∷ ("ANTHROPIC_API_KEY", "test-key")
    ∷ ("ANTHROPIC_MODEL", "claude-sonnet-4-5")
    ∷ ("E2B_API_KEY", "e2b-test-key")
    ∷ ("E2B_SANDBOX_TIMEOUT_SECONDS", "3600")
    ∷ ("AGENT_MAX_ITERATIONS", "50")
    ∷ ("AGENT_TOOL_TIMEOUT_SECONDS", "120")
    ∷ ("REDIS_URL", "redis://:secret@localhost:6379")
    ∷ ("AGENT_QUEUE_CONCURRENCY", "5")
    ∷ ("MEMBERSHIP_CACHE_TTL_SECONDS", "30")
    ∷ ("ENABLE_API_DOCS", "false")
    ∷ []

abbrev full : Env
full = record {
  node_env = NodeEnv.testing;
  port = 3000;
  database_url = "postgresql://localhost:5432/db";
  redis_url = "redis://:secret@localhost:6379";
  firebase_service_account = record {
    project_id = "test-project";
    client_email = "admin@test-project.iam.gserviceaccount.com";
    private_key = "key";
  };
  cors_origins = "http://localhost:5173" ∷ "https://app.example.com" ∷ [];
  rate_limit_ttl_seconds = 60;
  rate_limit_max = 100;
  anthropic_api_key = "test-key";
  anthropic_model = "claude-sonnet-4-5";
  e2b_api_key = "e2b-test-key";
  e2b_sandbox_timeout_seconds = 3600;
  agent_max_iterations = 50;
  agent_tool_timeout_seconds = 120;
  agent_queue_concurrency = 5;
  membership_cache_ttl_seconds = 30;
  enable_api_docs = false;
}

full_accepted : validate_env zod (find variables) ≡ ok full
unfolding parse_env combine checked split_commas trim
full_accepted = refl

abbrev without_database : String → Option String
without_database key = if key == "DATABASE_URL" then none else find variables key

missing_refused :
    validate_env zod without_database
    ≡ throw (Thrown.error "Invalid environment configuration: DATABASE_URL: Required")
unfolding parse_env combine checked split_commas trim
missing_refused = refl

validate_env-IsBounded_example :
    IsBounded full
    × (requests (execute world (loop_config full) "r1" "fix it" []).1 ≤ requests [] + 200)
    × Extends IsTimely [] (execute world (loop_config full) "r1" "fix it" []).1
validate_env-IsBounded_example =
    validate_env-IsBounded zod (find variables) full world "r1" "fix it" [] full_accepted
