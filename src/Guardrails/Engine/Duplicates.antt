-- ===== src/Guardrails/Engine/Duplicates.antt =====
-- A telemetry event takes effect once.
use burnlens.Prelude.{
  ◌≡◌, refl, ap, ◌∙◌, String, Bool, true, false, List, Bool-cases, inl, inr, eq_refl,
}
use burnlens.Float.{Float}
use burnlens.Guardrails.Models.{
  allow, no_failure, duplicate, no_metrics, active, paused, stopped, completed, GuardrailPolicy,
  RuntimeTelemetryEvent, TaskLifecycleState,
}
use burnlens.Guardrails.Storage.{
  GuardrailStorage, save_policy, update_task, set_task_state, get_or_create_task_state,
  record_event_ingestion,
}
use burnlens.Guardrails.Engine.{refusal, resumed, resume_task, evaluate_runtime_event}
use burnlens.Guardrails.Engine.History.{
  Step, event, resume, query, configure, Reach, here, next, found-ingested, event-ingested,
  handle_event-ingested,
}

module _ {W : Type 0} ⦃f : Float W⦄ where
  resumed-ingested :
      (state : TaskLifecycleState) (task workspace operator id : String) (s : GuardrailStorage W)
      → s.ingested id ≡ true
      → (resumed state task workspace operator s).1.ingested id ≡ true
  unfolding resumed set_task_state update_task
  resumed-ingested paused task workspace operator id s h =
      ap (λ ids. ids id) (found-ingested task workspace "" _) ∙ h
  resumed-ingested active task workspace operator id s h = h
  resumed-ingested stopped task workspace operator id s h = h
  resumed-ingested completed task workspace operator id s h = h

  module _ (by_version : List (GuardrailPolicy W) → List (GuardrailPolicy W))
      (clean : String → String) where
    Step-ingested :
        {s t : GuardrailStorage W} (id : String)
        → Step by_version clean s t
        → s.ingested id ≡ true
        → t.ingested id ≡ true
    unfolding resume_task save_policy
    Step-ingested id (event failure e s) h = event-ingested by_version clean failure e id s h
    Step-ingested id (resume task workspace operator s) h =
        let (t, s') = get_or_create_task_state task workspace "" s in
        resumed-ingested t.state task workspace operator id s'
          (ap (λ ids. ids id) (found-ingested task workspace "" s) ∙ h)
    Step-ingested id (query task workspace s) h =
        ap (λ ids. ids id) (found-ingested task workspace "" s) ∙ h
    Step-ingested id (configure p s) h = h

    Reach-ingested :
        {s t : GuardrailStorage W} (id : String)
        → Reach by_version clean s t
        → s.ingested id ≡ true
        → t.ingested id ≡ true
    Reach-ingested id here h = h
    Reach-ingested id (next r st) h = Step-ingested id st (Reach-ingested id r h)

    evaluated-ingested :
        (e : RuntimeTelemetryEvent W) (s : GuardrailStorage W)
        → (evaluate_runtime_event by_version clean false e s).1.ingested e.event_id ≡ true
    unfolding evaluate_runtime_event record_event_ingestion
    evaluated-ingested e s = elim (Bool-cases (s.ingested e.event_id)) [
      | inl old ↦ rw old old
      | inr new ↦ rw new (
          rw (handle_event-ingested by_version clean e e.event_id s) (rw (eq_refl e.event_id) refl))
    ]

    -- Once an event has been evaluated, whatever happens to the tables then, every event with its id
    -- is allowed as a duplicate and changes nothing: also if its task is another one, its action is
    -- forbidden, its task is stopped or the control plane fails.
    pub evaluate_runtime_event_once :
        (e e' : RuntimeTelemetryEvent W) (failure : Bool) (s : GuardrailStorage W)
        {s' : GuardrailStorage W}
        → Reach by_version clean (evaluate_runtime_event by_version clean false e s).1 s'
        → e'.event_id ≡ e.event_id
        → evaluate_runtime_event by_version clean failure e' s'
          ≡ (refusal e' allow no_failure duplicate no_metrics, s')
    unfolding evaluate_runtime_event
    evaluate_runtime_event_once e e' failure s {s'} r same =
        rw (ap s'.ingested same ∙ Reach-ingested e.event_id r (evaluated-ingested e s)) refl
