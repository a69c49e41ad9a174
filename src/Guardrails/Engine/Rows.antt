-- ===== src/Guardrails/Engine/Rows.antt =====
-- What an operation does to the rows of the tables that it does not name, and to the row of the
-- active task that it does.
use burnlens.Prelude.{
  ◌≡◌, refl, ◌∙◌, ap, String, true, false, ◌&&◌, none, some, List, ◌==◌, eq_refl, Option-cases, inl,
  inr, arith,
}
use burnlens.Float.{Float}
use burnlens.Guardrails.Models.{
  GuardrailDecisionType, allow, pause, stop, deny, TaskLifecycleState, active, paused, stopped,
  completed, GuardrailPolicy, RuntimeTelemetryEvent, Reason, TaskState,
}
use burnlens.Guardrails.Detector.{evaluate}
use burnlens.Guardrails.Storage.{
  GuardrailStorage, save_policy, get_policy, record_event_ingestion, find_task, update_task,
  record_decision, set_task_state, with_state, get_or_create_task_state, with_metrics,
}
use burnlens.Guardrails.Engine.{
  resets_tool_errors, transition, get_or_create_default_policy, supervise, by_state, handle_event,
}

module _ {W : Type 0} where
  -- The row `t` of the task `id` is not the one that a call on `task` in `workspace` means.
  abbrev pub IsElsewhere : String → TaskState W → String → String → Type 0
  IsElsewhere id t task workspace = (id == task && (t.workspace_id == workspace)) ≡ false

  pub update-elsewhere :
      (change : TaskState W → TaskState W) (id task workspace : String) (t : TaskState W)
      (s : GuardrailStorage W)
      → s.tasks id ≡ some t
      → IsElsewhere id t task workspace
      → (update_task change task workspace s).tasks id ≡ some t
  unfolding update_task
  update-elsewhere change id task workspace t s row other = rw row (ground arith)

  pub update_self :
      (change : TaskState W → TaskState W) (id workspace : String) (t : TaskState W)
      (s : GuardrailStorage W)
      → s.tasks id ≡ some t
      → (t.workspace_id == workspace) ≡ true
      → (update_task change id workspace s).tasks id ≡ some (change t)
  unfolding update_task
  update_self change id workspace t s row own = rw (eq_refl id) (rw row (rw own refl))

  pub transition-elsewhere :
      (d : GuardrailDecisionType) (r : Reason W) (id task workspace : String) (t : TaskState W)
      (s : GuardrailStorage W)
      → s.tasks id ≡ some t
      → IsElsewhere id t task workspace
      → (transition d r task workspace s).tasks id ≡ some t
  unfolding transition set_task_state
  transition-elsewhere pause r id task workspace t s row other =
      update-elsewhere (with_state paused (some r) none) id task workspace t s row other
  transition-elsewhere stop r id task workspace t s row other =
      update-elsewhere (with_state stopped (some r) none) id task workspace t s row other
  transition-elsewhere allow r id task workspace t s row other = row
  transition-elsewhere deny r id task workspace t s row other = row

module _ {W : Type 0} ⦃f : Float W⦄ where
  -- a row that is there stays as it is
  pub found-keeps :
      (id task workspace agent : String) (t : TaskState W) (s : GuardrailStorage W)
      → s.tasks id ≡ some t
      → (get_or_create_task_state task workspace agent s).1.tasks id ≡ some t
  unfolding get_or_create_task_state
  found-keeps id task workspace agent t s row = elim (Option-cases (find_task task workspace s)) [
    | inl none_found ↦ rw none_found (rw row (ground arith))
    | inr (u, found) ↦ rw found row
  ]

  -- the row of a call's own task is found
  pub found_self :
      (id workspace agent : String) (t : TaskState W) (s : GuardrailStorage W)
      → s.tasks id ≡ some t
      → (t.workspace_id == workspace) ≡ true
      → get_or_create_task_state id workspace agent s ≡ (t, s)
  unfolding get_or_create_task_state find_task
  found_self id workspace agent t s row own = rw row (rw own refl)

  pub found-policies :
      (task workspace agent : String) (s : GuardrailStorage W)
      → (get_or_create_task_state task workspace agent s).1.policies ≡ s.policies
  unfolding get_or_create_task_state
  found-policies task workspace agent s = elim (Option-cases (find_task task workspace s)) [
    | inl e ↦ rw e refl
    | inr (u, e) ↦ rw e refl
  ]

  module _ (by_version : List (GuardrailPolicy W) → List (GuardrailPolicy W)) where
    pub policy-tasks :
        (workspace : String) (s : GuardrailStorage W)
        → (get_or_create_default_policy by_version workspace s).1.tasks ≡ s.tasks
    unfolding get_or_create_default_policy save_policy
    policy-tasks workspace s = elim (Option-cases (get_policy by_version workspace s)) [
      | inl e ↦ rw e refl
      | inr (p, e) ↦ rw e refl
    ]

    pub policy-found :
        (workspace : String) (p : GuardrailPolicy W) (s : GuardrailStorage W)
        → get_policy by_version workspace s ≡ some p
        → get_or_create_default_policy by_version workspace s ≡ (p, s)
    unfolding get_or_create_default_policy
    policy-found workspace p s found = rw found refl

    module _ (clean : String → String) where
      pub supervise-elsewhere :
          (e : RuntimeTelemetryEvent W) (u : TaskState W) (id : String) (t : TaskState W)
          (s : GuardrailStorage W)
          → s.tasks id ≡ some t
          → IsElsewhere id t e.task_id e.workspace_id
          → (supervise by_version clean e u s).1.tasks id ≡ some t
      unfolding supervise record_decision
      supervise-elsewhere e u id t s row other =
          let (p, s') = get_or_create_default_policy by_version e.workspace_id s in
          let d = evaluate clean e u p in
          update-elsewhere
            (with_metrics e.cost_usd e.is_retry e.is_tool_error
              (resets_tool_errors e.is_tool_error e.action_type))
            id e.task_id e.workspace_id t
            (transition d.decision d.reason e.task_id e.workspace_id s')
            (transition-elsewhere d.decision d.reason id e.task_id e.workspace_id t s'
              (ap (λ tasks. tasks id) (policy-tasks e.workspace_id s) ∙ row) other)
            other

      pub by_state-elsewhere :
          (state : TaskLifecycleState) (e : RuntimeTelemetryEvent W) (u : TaskState W) (id : String)
          (t : TaskState W) (s : GuardrailStorage W)
          → s.tasks id ≡ some t
          → IsElsewhere id t e.task_id e.workspace_id
          → (by_state by_version clean state e u s).1.tasks id ≡ some t
      unfolding by_state record_decision
      by_state-elsewhere stopped e u id t s row other = row
      by_state-elsewhere paused e u id t s row other = row
      by_state-elsewhere active e u id t s row other = supervise-elsewhere e u id t s row other
      by_state-elsewhere completed e u id t s row other = supervise-elsewhere e u id t s row other

      -- an event of another task, or of another workspace
      pub handle_event-elsewhere :
          (e : RuntimeTelemetryEvent W) (id : String) (t : TaskState W) (s : GuardrailStorage W)
          → s.tasks id ≡ some t
          → IsElsewhere id t e.task_id e.workspace_id
          → (handle_event by_version clean e s).1.tasks id ≡ some t
      unfolding handle_event record_event_ingestion
      handle_event-elsewhere e id t s row other =
          let s0 = record_event_ingestion e.event_id s in
          let (u, s') = get_or_create_task_state e.task_id e.workspace_id e.agent_id s0 in
          by_state-elsewhere u.state e u id t s'
            (found-keeps id e.task_id e.workspace_id e.agent_id t s0 row) other
