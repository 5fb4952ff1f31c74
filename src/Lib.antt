-- ===== src/Lib.antt =====
-- Verification of the build server's backend (NestJS): the execution of agent runs, the API with its
-- guards, and the organizations, sessions, runs and keys behind it.
--
-- The program is a set of services around Postgres (Prisma), Firestore, Redis, BullMQ, Anthropic and E2B.
-- A request creates a run (src/agent/agent-runs.service.ts), which is queued; a worker then executes it
-- (src/agent/agent-loop.service.ts): it starts a sandbox, asks the model, runs the tools that the model
-- names, records each step, and publishes events, which each process passes to its observers.
-- Cancellation goes through a key in Redis. Each request passes the guard of its bearer token and, on the
-- routes of an organization, the guard of the membership, which reads through a cache in Redis.
--
-- How it is modelled: a handler is an action (World.Exec), a function from the history of the calls made
-- so far to a result, or an exception, and the longer history. The services are a parameter: the record
-- `World` replies to each call as a function of the history, so that a reply may be anything, an
-- exception included. A statement for all worlds holds whatever the services do. What one action does
-- between two calls is sequential in the source too; other processes are in the replies.
--
-- Files:
--   Base, Base/*            names of the libraries, Boolean tests, lists measured by native numbers, texts
--   World/Data, World/Calls rows of prisma/schema.prisma, mirrored documents, and the calls with their
--                           arguments and the types of their replies
--   World/Exec              actions: perform, raise, try_catch, try_finally
--   World/Grows, Returns, Triple, Writes  rules for the calls that an action adds, for what it returns,
--                           for conditions before and behind it, and the calls that write
--   Mirror                  src/firebase/firestore-mirror.service.ts
--   Audit                   src/audit/audit.service.ts
--   Pagination, Pagination/Pages  src/common/pagination.ts; buildPage is `build_page`
--   Sessions, Sessions/*    src/sessions/sessions.service.ts; getById is `get_by_id`, and so on
--   Cache                   src/redis/cache.service.ts, for the roles of members
--   Memberships, Memberships/*  src/auth/membership-cache.service.ts, src/auth/org-membership.guard.ts
--   Memberships/Keys, Roles, Pending, Coherent  what the database and the cache hold, call by call
--   Organizations, Organizations/*  src/organizations/organizations.service.ts
--   ApiKeys, ApiKeys/*      src/api-keys/api-keys.service.ts
--   Auth, Auth/*            src/auth/token-verifier.service.ts, src/auth/jwt-auth.guard.ts,
--                           src/users/users.service.ts
--   Api, Api/*              the controllers, one module each, behind the guards: `respond` takes a request
--                           with its Authorization header to a response
--   Configuration, */*      src/config/env.validation.ts; validateEnv is `validate_env`
--   Throttler, Throttler/*  src/redis/redis-throttler.storage.ts
--   FirestoreRules, */*     firestore.rules
--   AgentRuns, AgentRuns/*  src/agent/agent-runs.service.ts, and enqueue of src/agent/agent-run.queue.ts
--   Agent/WorkspacePath, */*  src/agent/tools/workspace-path.ts, with node:path by POSIX rules
--   Agent/Sandbox, */*      src/agent/sandbox/sandbox.service.ts
--   Agent/Tools, */*        src/agent/tools: the four tools and the registry
--   Agent/Publish           emit and complete of src/agent/agent-events.service.ts
--   Agent/Events, */*       the table of subjects of src/agent/agent-events.service.ts
--   Agent/Loop, Agent/Loop/*  src/agent/agent-loop.service.ts; runLoop is `run_loop`, its loop `iterate`
--   Tests, Tests/*          concrete services, and the theorems at work on them
--
-- Bounds: the loop counts down from `max_iterations`, which is the source's own bound, and at zero throws
-- what the source throws; no other fuel is used in the code. A client's walk over pages (`follow`) has a
-- number of requests, and one more than there are rows is enough.
--
-- Not modelled: logging, the formatting of JSON (a message is the value it stands for), the decorators of
-- NestJS and class-validator, the health checks, the metrics, the clients'
-- connections, and the construction of BullMQ's queue and worker. Dates are numbers. ThrottlerGuard of NestJS, which calls the throttler's
-- storage before the other guards, is not in front of the routes of the model.
pub mod Base
pub mod World
pub mod Agent
pub mod Mirror
pub mod Audit
pub mod Pagination
pub mod Sessions
pub mod Cache
pub mod Memberships
pub mod Organizations
pub mod ApiKeys
pub mod Auth
pub mod Configuration
pub mod Api
pub mod Throttler
pub mod FirestoreRules
pub mod AgentRuns
pub mod Tests
