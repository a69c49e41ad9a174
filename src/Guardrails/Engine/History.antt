-- ===== src/Guardrails/Engine/History.antt =====
-- What can happen to the tables: events with or without a failure of the control plane, resumptions
-- by an operator, status queries and new policies, in any order.
use burnlens.Prelude.{
  ◌≡◌, refl, String, Bool, true, List, Bool-cases, inl, inr, arith, Option-cases,
}
use burnlens.Float.{Float}
use burnlens.Guardrails.Models.{
  active, paused, stopped, completed, GuardrailPolicy, RuntimeTelemetryEvent, TaskLifecycleState,
  GuardrailDecisionType, allow, pause, stop, deny, Reason, TaskState,
}
use burnlens.Guardrails.Storage.{
  GuardrailStorage, save_policy, get_policy, find_task, get_or_create_task_state, set_task_state,
  record_event_ingestion, record_decision, update_task,
}
use burnlens.Guardrails.Engine.{
  evaluate_runtime_event, resume_task, get_or_create_default_policy, handle_event, by_state,
  supervise, transition,
}

module _ {W : Type 0} ⦃f : Float W⦄
    (by_version : List (GuardrailPolicy W) → List (GuardrailPolicy W))
    (clean : String → String) where
  pub data Step : GuardrailStorage W → GuardrailStorage W → Type 0 where
    event :
        (failure : Bool) (e : RuntimeTelemetryEvent W) (s : GuardrailStorage W)
        → Step s (evaluate_runtime_event by_version clean failure e s).1
    resume :
        (task workspace operator : String) (s : GuardrailStorage W)
        → Step s (resume_task task workspace operator s).1
    query :
        (task workspace : String) (s : GuardrailStorage W)
        → Step s (get_or_create_task_state task workspace "" s).1
    configure : (p : GuardrailPolicy W) (s : GuardrailStorage W) → Step s (save_policy p s)

  pub data Reach (s : GuardrailStorage W) : GuardrailStorage W → Type 0 where
    here : Reach s s
    next : {t u : GuardrailStorage W} → Reach s t → Step t u → Reach s u

module _ {W : Type 0} ⦃f : Float W⦄ where
  pub found-ingested :
      (task workspace agent : String) (s : GuardrailStorage W)
      → (get_or_create_task_state task workspace agent s).1.ingested ≡ s.ingested
  unfolding get_or_create_task_state
  found-ingested task workspace agent s = elim (Option-cases (find_task task workspace s)) [
    | inl e ↦ rw e refl
    | inr (u, e) ↦ rw e refl
  ]

  transition-ingested :
      (d : GuardrailDecisionType) (r : Reason W) (task workspace : String) (s : GuardrailStorage W)
      → (transition d r task workspace s).ingested ≡ s.ingested
  unfolding transition set_task_state update_task
  transition-ingested pause r task workspace s = refl
  transition-ingested stop r task workspace s = refl
  transition-ingested allow r task workspace s = refl
  transition-ingested deny r task workspace s = refl

  module _ (by_version : List (GuardrailPolicy W) → List (GuardrailPolicy W)) where
    policy-ingested :
        (workspace : String) (s : GuardrailStorage W)
        → (get_or_create_default_policy by_version workspace s).1.ingested ≡ s.ingested
    unfolding get_or_create_default_policy save_policy
    policy-ingested workspace s = elim (Option-cases (get_policy by_version workspace s)) [
      | inl e ↦ rw e refl
      | inr (p, e) ↦ rw e refl
    ]

    module _ (clean : String → String) where
      supervise-ingested :
          (e : RuntimeTelemetryEvent W) (u : TaskState W) (s : GuardrailStorage W)
          → (supervise by_version clean e u s).1.ingested ≡ s.ingested
      unfolding supervise record_decision update_task
      supervise-ingested e u s =
          rw (transition-ingested _ _ _ _ _) (policy-ingested e.workspace_id s)

      by_state-ingested :
          (state : TaskLifecycleState) (e : RuntimeTelemetryEvent W) (u : TaskState W)
          (s : GuardrailStorage W)
          → (by_state by_version clean state e u s).1.ingested ≡ s.ingested
      unfolding by_state record_decision
      by_state-ingested stopped e u s = refl
      by_state-ingested paused e u s = refl
      by_state-ingested active e u s = supervise-ingested e u s
      by_state-ingested completed e u s = supervise-ingested e u s

      pub handle_event-ingested :
          (e : RuntimeTelemetryEvent W) (id : String) (s : GuardrailStorage W)
          → (handle_event by_version clean e s).1.ingested id
            ≡ (record_event_ingestion e.event_id s).ingested id
      unfolding handle_event
      handle_event-ingested e id s =
          rw
            (
              by_state-ingested _ e _ _,
              found-ingested e.task_id e.workspace_id e.agent_id
                  (record_event_ingestion e.event_id s),
            )
            refl

      pub event-ingested :
          (failure : Bool) (e : RuntimeTelemetryEvent W) (id : String) (s : GuardrailStorage W)
          → s.ingested id ≡ true
          → (evaluate_runtime_event by_version clean failure e s).1.ingested id ≡ true
      unfolding evaluate_runtime_event record_event_ingestion
      event-ingested failure e id s h = elim (Bool-cases (s.ingested e.event_id)) [
        | inl old ↦ rw old h
        | inr new ↦ rw new (elim (Bool-cases failure) [
          | inl down ↦ rw down (rw (policy-ingested e.workspace_id s) h)
          | inr up ↦ rw up (rw (handle_event-ingested e id s) (ground arith))
        ])
      ]
