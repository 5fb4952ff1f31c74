-- ===== src/Configuration/Bounds.antt =====
-- The bounds that src/config/env.validation.ts puts on the numbers of a configuration, and what they mean
-- for the agent loop, whose constructor reads them.
use mathlib.Core.Path.{subst}
use lotus_build_server.Base.{ℕ, sym, ◌+◌, ◌≤◌, String, ◌≡◌, Option, none, some, arith}
use lotus_build_server.World.Exec.{ok, History, World}
use lotus_build_server.World.Calls.{Call, SandboxCall, sandbox}
use lotus_build_server.World.Grows.{Extends, Extends-weaken}
use lotus_build_server.Agent.Loop.{Config, execute}
use lotus_build_server.Agent.Loop.Timed.{IsTimed, execute-IsTimed}
use lotus_build_server.Agent.Loop.Budget.{requests, requests-execute}
use lotus_build_server.Configuration.Schema.{
  Parsed, parsed, refused, combine, chain, at_least, between, settled,
}
use lotus_build_server.Configuration.{
  Zod, Env, parse_env, validate_env, loop_config, checked, number, setting,
}

-- What is parsed has the property.
abbrev Holds : {A : Type 0} → (A → Type 0) → Parsed A → Type 0
Holds P (parsed a) = P a
Holds P (refused issues) = Unit

record Ensures {A : Type 0} (P : A → Type 0) (x : Parsed A) : Type 0 where
  holds : Holds P x

module _ {A B : Type 0} (P : A → Type 0) (R : B → Type 0) where
  Holds-combine :
      (f : Parsed (A → B)) (x : Parsed A)
      → Holds (λ (g : A → B). (a : A) → P a → R (g a)) f
      → Holds P x
      → Holds R (combine f x)
  unfolding combine
  Holds-combine (parsed g) (parsed a) k p = k a p
  Holds-combine (parsed g) (refused i) k p = tt
  Holds-combine (refused i) (parsed a) k p = tt
  Holds-combine (refused i) (refused j) k p = tt

  Ensures-combine :
      {f : Parsed (A → B)} {x : Parsed A}
      → Ensures (λ (g : A → B). (a : A) → P a → R (g a)) f
      → Ensures P x
      → Ensures R (combine f x)
  Ensures-combine {f} {x} k p = record { holds = Holds-combine f x k.holds p.holds }

-- The numbers are within the limits of the schema.
abbrev pub Within : ℕ → ℕ → ℕ → Type 0
Within low high n = (low ≤ n) × (n ≤ high)

unfoldable pub IsBounded : Env → Type 0
IsBounded e =
    Within 1 65535 e.port
    × (1 ≤ e.rate_limit_ttl_seconds)
    × (1 ≤ e.rate_limit_max)
    × Within 60 86400 e.e2b_sandbox_timeout_seconds
    × Within 1 200 e.agent_max_iterations
    × Within 1 600 e.agent_tool_timeout_seconds
    × Within 1 50 e.agent_queue_concurrency
    × Within 1 3600 e.membership_cache_ttl_seconds

abbrev Any : {A : Type 0} → A → Type 0
Any a = Unit

module _ (z : Zod) (config : String → Option String) where
  Holds-Any : {A : Type 0} (x : Parsed A) → Holds Any x
  Holds-Any (parsed a) = tt
  Holds-Any (refused i) = tt

  Ensures-Any : {A : Type 0} (x : Parsed A) → Ensures Any x
  Ensures-Any x = record { holds = Holds-Any x }

  settled-at_least :
      (low : ℕ) (coerced : Option ℕ) (key : String)
      → Ensures
          (λ n. low ≤ n)
          (settled (z.issues_of key (config key)) (chain coerced (at_least low)))
  settled-at_least low none key = record { holds = tt }
  settled-at_least low (some n) key = record { holds = ground arith }

  settled-between :
      (low high : ℕ) (coerced : Option ℕ) (key : String)
      → Ensures
          (Within low high)
          (settled (z.issues_of key (config key)) (chain coerced (between low high)))
  settled-between low high none key = record { holds = tt }
  settled-between low high (some n) key = record { holds = ground arith }

  setting-at_least :
      (low : ℕ) (key : String)
      → Ensures (λ n. low ≤ n) (setting z config key (number z (at_least low)))
  unfolding setting number
  setting-at_least low key = settled-at_least low (z.coerce_integer (config key)) key

  setting-between :
      (low high : ℕ) (key : String)
      → Ensures (Within low high) (setting z config key (number z (between low high)))
  unfolding setting number
  setting-between low high key = settled-between low high (z.coerce_integer (config key)) key

  parse_env-Ensures : Ensures IsBounded (parse_env z config)
  unfolding parse_env IsBounded
  parse_env-Ensures =
      (Ensures-combine Any _
        (Ensures-combine (Within 1 3600) _
          (Ensures-combine (Within 1 50) _
            (Ensures-combine (Within 1 600) _
              (Ensures-combine (Within 1 200) _
                (Ensures-combine (Within 60 86400) _
                  (Ensures-combine Any _
                    (Ensures-combine Any _
                      (Ensures-combine Any _
                        (Ensures-combine (λ n. 1 ≤ n) _
                          (Ensures-combine (λ n. 1 ≤ n) _
                            (Ensures-combine Any _
                              (Ensures-combine Any _
                                (Ensures-combine Any _
                                  (Ensures-combine Any _
                                    (Ensures-combine (Within 1 65535) _
                                      (Ensures-combine Any _
                                        (record {
                                          holds =
                                              λ v0 u0 v1 port v2 u2 v3 u3 v4 u4 v5 u5 v6 ttl v7 max
                                                  v8 u8 v9 u9 v10 u10 v11 sandbox v12 iterations v13
                                                  tool v14 queue v15 cache v16 u16.
                                                (
                                                  port, ttl, max, sandbox, iterations, tool, queue,
                                                  cache,
                                                );
                                        })
                                        (Ensures-Any _))
                                      (setting-between 1 65535 "PORT"))
                                    (Ensures-Any _))
                                  (Ensures-Any _))
                                (Ensures-Any _))
                              (Ensures-Any _))
                            (setting-at_least 1 "RATE_LIMIT_TTL_SECONDS"))
                          (setting-at_least 1 "RATE_LIMIT_MAX"))
                        (Ensures-Any _))
                      (Ensures-Any _))
                    (Ensures-Any _))
                  (setting-between 60 86400 "E2B_SANDBOX_TIMEOUT_SECONDS"))
                (setting-between 1 200 "AGENT_MAX_ITERATIONS"))
              (setting-between 1 600 "AGENT_TOOL_TIMEOUT_SECONDS"))
            (setting-between 1 50 "AGENT_QUEUE_CONCURRENCY"))
          (setting-between 1 3600 "MEMBERSHIP_CACHE_TTL_SECONDS"))
        (Ensures-Any _))

of_checked : (x : Parsed Env) {e : Env} → Holds IsBounded x → checked x ≡ ok e → IsBounded e
unfolding checked
of_checked (parsed e') {e = e} b h =
    let same : e' ≡ e = cc in subst (λ (x : Env). IsBounded x) same b
of_checked (refused issues) b h = absurd cc

-- The lifetime of a sandbox that is asked for, and the time that a command gets, in milliseconds.
abbrev pub IsTimely : Call → Type 0
IsTimely (sandbox (SandboxCall.create lifetime)) = Within 60000 86400000 lifetime
IsTimely (sandbox (SandboxCall.run id command cwd timeout)) = Within 1000 600000 timeout
IsTimely _ = Unit

timely :
    (c : Config)
    → Within 60000 86400000 c.sandbox_timeout_ms
    → Within 1000 600000 c.command_timeout_ms
    → (call : Call) → IsTimed c call
    → IsTimely call
timely c b b' (sandbox (SandboxCall.create t)) h =
    subst (λ (n : ℕ). Within 60000 86400000 n) (sym h) b
timely c b b' (sandbox (SandboxCall.run i d cwd t)) h =
    subst (λ (n : ℕ). Within 1000 600000 n) (sym h) b'
timely c b b' _ h = tt

-- A configuration that `validateEnv` lets through has each number within the limits of the schema. An
-- execution of the agent loop with it asks the model at most 200 times, asks for sandboxes with a
-- lifetime of between one minute and one day only, and gives each command between one second and ten
-- minutes.
pub validate_env-IsBounded :
    (z : Zod) (config : String → Option String) (e : Env) (w : World) (run_id prompt : String)
    (h : History)
    → validate_env z config ≡ ok e
    → IsBounded e
      × (requests (execute w (loop_config e) run_id prompt h).1 ≤ requests h + 200)
      × Extends IsTimely h (execute w (loop_config e) run_id prompt h).1
unfolding IsBounded
validate_env-IsBounded z config e w run_id prompt h v =
    let b : IsBounded e = of_checked (parse_env z config) (parse_env-Ensures z config).holds v in
    let most = requests-execute w (loop_config e) run_id prompt h in
    (
      b,
      omega arith,
      Extends-weaken (timely (loop_config e) (omega arith, omega arith) (omega arith, omega arith))
          ((execute-IsTimed w (loop_config e) run_id prompt).at h),
    )
