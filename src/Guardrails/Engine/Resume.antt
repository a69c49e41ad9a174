-- ===== src/Guardrails/Engine/Resume.antt =====
-- What an operator's resumption gives a paused task.
use burnlens.Prelude.{
  ◌+◌, ◌≤◌, ◌≡◌, refl, ap, ◌∙◌, ◌==◌, String, false, true, none, some, List, [], ◌∷◌, arith,
}
use burnlens.Float.{Float}
use burnlens.Guardrails.Models.{active, paused, GuardrailPolicy, RuntimeTelemetryEvent, TaskState}
use burnlens.Guardrails.Detector.{is_forbidden}
use burnlens.Guardrails.Storage.{
  GuardrailStorage, get_policy, set_task_state, update_task, with_state,
}
use burnlens.Guardrails.Engine.{resumed, resume_task, evaluate_runtime_event}
use burnlens.Guardrails.Engine.Rows.{update_self, found_self}
use burnlens.Guardrails.Engine.Runaway.{IsHeld, run-IsHeld}

module _ {W : Type 0} ⦃f : Float W⦄ where
  abbrev pub resumed_row : String → TaskState W → TaskState W
  resumed_row operator t = with_state active none (some operator) t

  resumed-paused :
      (id workspace operator : String) (t : TaskState W) (s : GuardrailStorage W)
      → s.tasks id ≡ some t
      → (t.workspace_id == workspace) ≡ true
      → resumed paused id workspace operator s
        ≡ (some (resumed_row operator t), set_task_state id workspace active none (some operator) s)
  unfolding resumed set_task_state with_state
  resumed-paused id workspace operator t s row own =
      rw
        (found_self id workspace "" (resumed_row operator t)
          (update_task (with_state active none (some operator)) id workspace s)
          (update_self (with_state active none (some operator)) id workspace t s row own) own)
        refl

  pub resume_task-paused :
      (id workspace operator : String) (t : TaskState W) (s : GuardrailStorage W)
      → s.tasks id ≡ some t
      → (t.workspace_id == workspace) ≡ true
      → t.state ≡ paused
      → resume_task id workspace operator s
        ≡ (some (resumed_row operator t), set_task_state id workspace active none (some operator) s)
  unfolding resume_task
  resume_task-paused id workspace operator t s row own halted =
      ap (λ r. resumed r.0.state id workspace operator r.1) (found_self id workspace "" t s row own)
      ∙ ap (λ state. resumed state id workspace operator s) halted
      ∙ resumed-paused id workspace operator t s row own

  module _ (by_version : List (GuardrailPolicy W) → List (GuardrailPolicy W))
      (clean : String → String) where
    -- The resumption of a paused task keeps its number of requests: if one more is as many as the
    -- policy allows, the next permitted event with a new id pauses or stops the task again.
    pub resume_task_again :
        (e : RuntimeTelemetryEvent W) (p : GuardrailPolicy W) (operator : String) (t : TaskState W)
        (s : GuardrailStorage W)
        → s.tasks e.task_id ≡ some t
        → (t.workspace_id == e.workspace_id) ≡ true
        → t.state ≡ paused
        → get_policy by_version e.workspace_id s ≡ some p
        → is_forbidden clean e.action_type p.forbidden_actions ≡ false
        → s.ingested e.event_id ≡ false
        → p.max_task_requests ≤ t.request_count + 1
        → let s' = (resume_task e.task_id e.workspace_id operator s).1 in
          (u : TaskState W) × ((evaluate_runtime_event by_version clean false e s').1.tasks
              e.task_id
            ≡ some u)
          × IsHeld u
    unfolding set_task_state update_task get_policy with_state
    resume_task_again e p operator t s row own halted policy permitted new many =
        rw (resume_task-paused e.task_id e.workspace_id operator t s row own halted) (
          run-IsHeld by_version clean e.task_id e.workspace_id p (e ∷ []) (resumed_row operator t)
            (set_task_state e.task_id e.workspace_id active none (some operator) s)
            (update_self (with_state active none (some operator)) e.task_id e.workspace_id t s row
              own)
            own refl policy ((refl, refl, permitted, new), tt) (tt, tt) (omega arith) (omega arith))
