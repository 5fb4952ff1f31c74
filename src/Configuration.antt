-- ===== src/Configuration.antt =====
-- src/config/env.validation.ts: the schema of the environment and its validation. The configuration is
-- a text or nothing for each name. What zod documents of `min`, `max`, `enum`, `transform`, `pipe` and
-- `object` is written out; its coercion of a number, its formats of a URL and of an email, the texts of
-- its issues, and the object that JSON.parse reads are parameters.
pub mod Schema
pub mod Bounds
use Prim.Native.Char.{Char, code}
use text.Mathlib.Text.{starts_with}
use lotus_build_server.Base.{
  ℕ, ◌*◌, String, ◌<>◌, Bool, true, false, ◌&&◌, ◌||◌, ◌==◌, Option, none, some, List, [], ◌∷◌,
  ◌++◌, map, leb, nat_eq, if◌then◌else◌,
}
use lotus_build_server.Base.Text.{is_empty, join, trim}
use Schema.{
  Issue, Parsed, parsed, refused, combine, chain, keep, settled, required_text, split_commas, all,
  at_least, between,
}
use lotus_build_server.World.Exec.{Thrown, Result, ok, throw}
use lotus_build_server.Agent.Loop.{Config}

-- What zod and JSON.parse decide.
pub record Zod : Type 0 where
  -- `z.coerce.number().int()`, where the number is natural
  pub coerce_integer : Option String → Option ℕ
  pub is_url : String → Bool
  pub is_email : String → Bool
  -- the texts in the object that `JSON.parse` returns; nothing where it throws or returns no object
  pub parse_json : String → Option (String → Option String)
  -- the issues about a value that the field of this name refuses
  pub issues_of : String → Option String → List Issue

pub data NodeEnv : Type 0 where
  development : NodeEnv
  testing : NodeEnv
  production : NodeEnv

pub record ServiceAccount : Type 0 where
  pub project_id : String
  pub client_email : String
  pub private_key : String

pub record Env : Type 0 where
  pub node_env : NodeEnv
  pub port : ℕ
  pub database_url : String
  pub redis_url : String
  pub firebase_service_account : ServiceAccount
  pub cors_origins : List String
  pub rate_limit_ttl_seconds : ℕ
  pub rate_limit_max : ℕ
  pub anthropic_api_key : String
  pub anthropic_model : String
  pub e2b_api_key : String
  pub e2b_sandbox_timeout_seconds : ℕ
  pub agent_max_iterations : ℕ
  pub agent_tool_timeout_seconds : ℕ
  pub agent_queue_concurrency : ℕ
  pub membership_cache_ttl_seconds : ℕ
  pub enable_api_docs : Bool

abbrev pub node_env_of : Option String → Option NodeEnv
node_env_of none = none
node_env_of (some s) =
    if s == "development"
    then some NodeEnv.development
    else if s == "test"
    then some NodeEnv.testing
    else if s == "production"
    then some NodeEnv.production
    else none

-- `z.enum(['true', 'false']).transform((value) => value === 'true')`
abbrev pub flag_of : Option String → Option Bool
flag_of none = none
flag_of (some s) = if s == "true" then some true else if s == "false" then some false else none

-- The fields that the schema names, in its order.
abbrev pub env :
    NodeEnv
    → ℕ
    → String
    → String
    → ServiceAccount
    → List String
    → ℕ
    → ℕ
    → String
    → String
    → String
    → ℕ
    → ℕ
    → ℕ
    → ℕ
    → ℕ
    → Bool
    → Env
env node_env port database_url redis_url firebase_service_account cors_origins
      rate_limit_ttl_seconds rate_limit_max anthropic_api_key anthropic_model e2b_api_key
      e2b_sandbox_timeout_seconds agent_max_iterations agent_tool_timeout_seconds
      agent_queue_concurrency membership_cache_ttl_seconds enable_api_docs =
    record {
      node_env = node_env;
      port = port;
      database_url = database_url;
      redis_url = redis_url;
      firebase_service_account = firebase_service_account;
      cors_origins = cors_origins;
      rate_limit_ttl_seconds = rate_limit_ttl_seconds;
      rate_limit_max = rate_limit_max;
      anthropic_api_key = anthropic_api_key;
      anthropic_model = anthropic_model;
      e2b_api_key = e2b_api_key;
      e2b_sandbox_timeout_seconds = e2b_sandbox_timeout_seconds;
      agent_max_iterations = agent_max_iterations;
      agent_tool_timeout_seconds = agent_tool_timeout_seconds;
      agent_queue_concurrency = agent_queue_concurrency;
      membership_cache_ttl_seconds = membership_cache_ttl_seconds;
      enable_api_docs = enable_api_docs;
    }

module _ (z : Zod) where
  url : Option String → Option String
  url none = none
  url (some s) = keep z.is_url s

  redis_url_of : Option String → Option String
  redis_url_of value =
      chain (url value) (keep (λ s. starts_with s "redis://" || starts_with s "rediss://"))

  account_of : (String → Option String) → Option ServiceAccount
  account_of fields = chain (required_text (fields "project_id")) λ project_id.
      chain (fields "client_email") λ client_email. chain (keep z.is_email client_email) λ _.
        chain (required_text (fields "private_key")) λ private_key. some (record {
          project_id = project_id;
          client_email = client_email;
          private_key = private_key;
        })

  service_account_of : Option String → Option ServiceAccount
  service_account_of value = chain (chain (required_text value) z.parse_json) account_of

  -- a split has at least one part, so that `.min(1)` never fails
  origins_of : Option String → Option (List String)
  origins_of value =
      chain (required_text value) (λ s. keep (all z.is_url) (map trim (split_commas s)))

  number : (ℕ → Option ℕ) → Option String → Option ℕ
  number limits value = chain (z.coerce_integer value) limits

  module _ (config : String → Option String) where
    setting {ℓ} : {A : Type ℓ} → String → (Option String → Option A) → Parsed A
    setting key accept = settled (z.issues_of key (config key)) (accept (config key))

    -- `envSchema.safeParse(config)`
    unfoldable pub parse_env : Parsed Env
    unfolding url redis_url_of account_of service_account_of origins_of number setting
    parse_env =
        combine
          (combine
            (combine
              (combine
                (combine
                  (combine
                    (combine
                      (combine
                        (combine
                          (combine
                            (combine
                              (combine
                                (combine
                                  (combine
                                    (combine
                                      (combine
                                        (combine (parsed env) (setting "NODE_ENV" node_env_of))
                                        (setting "PORT" (number (between 1 65535))))
                                      (setting "DATABASE_URL" url))
                                    (setting "REDIS_URL" redis_url_of))
                                  (setting "FIREBASE_SERVICE_ACCOUNT_JSON" service_account_of))
                                (setting "CORS_ORIGINS" origins_of))
                              (setting "RATE_LIMIT_TTL_SECONDS" (number (at_least 1))))
                            (setting "RATE_LIMIT_MAX" (number (at_least 1))))
                          (setting "ANTHROPIC_API_KEY" required_text))
                        (setting "ANTHROPIC_MODEL" required_text))
                      (setting "E2B_API_KEY" required_text))
                    (setting "E2B_SANDBOX_TIMEOUT_SECONDS" (number (between 60 86400))))
                  (setting "AGENT_MAX_ITERATIONS" (number (between 1 200))))
                (setting "AGENT_TOOL_TIMEOUT_SECONDS" (number (between 1 600))))
              (setting "AGENT_QUEUE_CONCURRENCY" (number (between 1 50))))
            (setting "MEMBERSHIP_CACHE_TTL_SECONDS" (number (between 1 3600))))
          (setting "ENABLE_API_DOCS" flag_of)

-- the text of an issue in the message
line : Issue → String
line issue = join "." issue.path <> ": " <> issue.message

unfoldable pub checked : Parsed Env → Result Env
unfolding line
checked (parsed e) = ok e
checked (refused issues) =
    throw (Thrown.error ("Invalid environment configuration: " <> join "; " (map line issues)))

abbrev pub validate_env : Zod → (String → Option String) → Result Env
validate_env z config = checked (parse_env z config)

-- what the constructors of the agent loop and of the sandbox service read of it
abbrev pub loop_config : Env → Config
loop_config e = record {
  model = e.anthropic_model;
  max_iterations = e.agent_max_iterations;
  sandbox_timeout_ms = e.e2b_sandbox_timeout_seconds * 1000;
  command_timeout_ms = e.agent_tool_timeout_seconds * 1000;
}
