-- ===== src/AgentRuns/Enqueued.antt =====
-- Which jobs `create` of src/agent/agent-runs.service.ts puts into the queue.
use lotus_build_server.Base.{String, ◌≡◌, refl, ◌∙◌, inl, inr, List, [], ◌∷◌, ◌++◌}
use lotus_build_server.World.Data.{OrgActor, Session, AgentRun}
use lotus_build_server.World.Calls.{Call, Reply, AgentRunJobData, queue_add}
use lotus_build_server.World.Exec.{
  World, Exec, Thrown, Result, ok, throw, History, perform, act, continue, ◌>>=◌, ◌>>◌, pure,
  try_catch, Result-cases,
}
use lotus_build_server.World.Grows.{
  Grows, Extends, same, more, Grows-act, Grows-try_catch, Grows-perform, Grows-or_throw,
  grows_rules,
}
use lotus_build_server.World.Returns.{Returns, Returns-bind, Returns-raise}
use lotus_build_server.AgentRuns.{
  create, create_on, on_mirror_failure, on_enqueue_failure, mark_not_enqueued, enqueue,
}

-- The job that a call put into the queue, if it did.
abbrev queued_by : (c : Call) → Result (Reply c) → List AgentRunJobData
queued_by (queue_add name data_ job_id) (ok u) = data_ ∷ []
queued_by _ _ = []

-- The jobs that were put into the queue, the newest first.
unfoldable pub queued : History → List AgentRunJobData
queued [] = []
queued (e ∷ h) = queued_by e.call e.reply ++ queued h

-- The call is none of the queue.
abbrev NoQueue : Call → Type 0
NoQueue (queue_add _ _ _) = ⊥
NoQueue _ = Unit

queued-Extends : {h h' : History} → Extends NoQueue h h' → queued h' ≡ queued h
unfolding queued
queued-Extends same = refl
queued-Extends (more e p x) = rw (none_queued e.call e.reply p) (queued-Extends x)
  where
    none_queued : (c : Call) (r : Result (Reply c)) → NoQueue c → queued_by c r ≡ []
    none_queued (Call.prisma c) r p = refl
    none_queued (Call.firestore c) r p = refl
    none_queued (Call.redis c) r p = refl
    none_queued (Call.sandbox c) r p = refl
    none_queued (Call.messages_create c) r p = refl
    none_queued (queue_add name data_ job_id) r p = absurd p
    none_queued (Call.agent_runs_total_inc s) r p = refl
    none_queued (Call.verify_id_token token) r p = refl
    none_queued (Call.random_bytes n) r p = refl

-- The job of the run that was returned, and none where it was not.
abbrev pub job_of : String → Result AgentRun → List AgentRunJobData
job_of prompt (ok run) = record { run_id = run.id; prompt = prompt } ∷ []
job_of prompt (throw e) = []

-- What the action queues is the job of the run that it returns.
record Queues (prompt : String) (m : Exec AgentRun) : Type 0 where
  at : (h : History) → queued (m h).1 ≡ job_of prompt (m h).0 ++ queued h

module _ {A : Type 0} (prompt : String) where
  Queues-continue :
      (r : Result A) (k : A → Exec AgentRun) (h h' : History)
      → queued h' ≡ queued h
      → ((a : A) → Queues prompt (k a))
      → queued (continue r k h').1 ≡ job_of prompt (continue r k h').0 ++ queued h
  Queues-continue (ok a) k h h' e kk = (kk a).at h' ∙ rw e refl
  Queues-continue (throw t) k h h' e kk = e

  Queues-bind :
      (m : Exec A) (k : A → Exec AgentRun)
      → Grows NoQueue m
      → ((a : A) → Queues prompt (k a))
      → Queues prompt (m >>= k)
  Queues-bind m k km kk = record {
    at = λ h. let (r, h') = m h in Queues-continue r k h h' (queued-Extends (km.at h)) kk;
  }

module _ (w : World) where
  on_mirror_failure-NoQueue :
      {A : Type 0} (id : String) (e : Thrown) → Grows {A = A} NoQueue (on_mirror_failure w id e)
  unfolding on_mirror_failure
  on_mirror_failure-NoQueue id e = search grows_rules

  on_enqueue_failure-NoQueue :
      {A : Type 0} (id : String) (e : Thrown) → Grows {A = A} NoQueue (on_enqueue_failure w id e)
  unfolding on_enqueue_failure mark_not_enqueued
  on_enqueue_failure-NoQueue id e = search grows_rules

  on_enqueue_failure-Returns :
      {A : Type 0} (id : String) (e : Thrown) → Returns (λ (a : A). ⊥) (on_enqueue_failure w id e)
  unfolding on_enqueue_failure
  on_enqueue_failure-Returns id e = Returns-bind (mark_not_enqueued w id) _ λ _. Returns-raise e

  not_queued :
      (prompt : String) (run : AgentRun) (h h' : History) (r : Result (Unit {0}))
      → queued h' ≡ queued h
      → ((u : Unit {0}) → r ≡ ok u → ⊥)
      → queued (continue r (λ _. pure run) h').1
        ≡ job_of prompt (continue r (λ _. pure run) h').0 ++ queued h
  not_queued prompt run h h' (ok u) e never = absurd (never u refl)
  not_queued prompt run h h' (throw t) e never = e

  enqueue-Queues :
      (prompt : String) (run : AgentRun)
      → Queues prompt (do
        try_catch
            (enqueue w (record { run_id = run.id; prompt = prompt }))
            (on_enqueue_failure w run.id)
        pure run)
  unfolding enqueue act perform queued
  enqueue-Queues prompt run = record {
    at = λ h.
        elim (Result-cases
          (w.reply (queue_add "execute" (record { run_id = run.id; prompt = prompt }) run.id) h)) [
            | inl (u, e) ↦ rw e refl
            | inr (t, e) ↦ rw e (
                not_queued prompt run h _ (on_enqueue_failure w run.id t _).0
                  (queued-Extends ((on_enqueue_failure-NoQueue run.id t).at _))
                  ((on_enqueue_failure-Returns run.id t).at _))
          ];
  }

  create_on-Queues :
      (model organization_id session_id : String) (actor : OrgActor) (prompt : String)
      (session : Session)
      → Queues prompt (create_on w model organization_id session_id actor prompt session)
  unfolding create_on
  create_on-Queues model organization_id session_id actor prompt session =
      Queues-bind prompt _ _ (Grows-perform w _ tt) λ run.
        Queues-bind prompt _ _
          (Grows-try_catch _ _ (Grows-act w _ tt) (on_mirror_failure-NoQueue run.id))
          λ _. Queues-bind prompt _ _ (Grows-act w _ tt) λ _. enqueue-Queues prompt run

  -- Whatever the services reply or throw, `create` returns a run just where it queued one job, and that
  -- job carries the run's identifier and the prompt; where it throws, nothing was queued.
  pub queued-create :
      (model organization_id session_id : String) (actor : OrgActor) (prompt : String) (h : History)
      → queued (create w model organization_id session_id actor prompt h).1
        ≡ job_of prompt (create w model organization_id session_id actor prompt h).0 ++ queued h
  unfolding create
  queued-create model organization_id session_id actor prompt =
      (Queues-bind prompt _ _ (Grows-perform w _ tt) λ found.
        Queues-bind prompt _ _ (Grows-or_throw found _)
          (create_on-Queues model organization_id session_id actor prompt)).at
