-- ===== src/Guardrails/Engine/Stopped.antt =====
-- A stopped task stays stopped.
use burnlens.Prelude.{
  ◌≡◌, refl, sym, ap, ◌∙◌, ◌&&◌, ◌==◌, String, Bool, true, false, none, some, List, Bool-cases, inl,
  inr, eq_refl, eq_iff, and_left, and_right,
}
use burnlens.Float.{Float}
use burnlens.Guardrails.Models.{
  stop, active, paused, stopped, completed, GuardrailPolicy, RuntimeTelemetryEvent,
  TaskLifecycleState, TaskState,
}
use burnlens.Guardrails.Storage.{
  GuardrailStorage, save_policy, get_or_create_task_state, record_event_ingestion, record_decision,
  set_task_state, with_state,
}
use burnlens.Guardrails.Engine.{
  resumed, resume_task, evaluate_runtime_event, handle_event, by_state,
}
use burnlens.Guardrails.Engine.Rows.{
  IsElsewhere, update-elsewhere, found-keeps, found_self, policy-tasks, handle_event-elsewhere,
}
use burnlens.Guardrails.Engine.History.{Step, event, resume, query, configure, Reach, here, next}

module _ {W : Type 0} ⦃f : Float W⦄
    (by_version : List (GuardrailPolicy W) → List (GuardrailPolicy W)) (clean : String → String)
    (id : String) (t : TaskState W) (over : t.state ≡ stopped) where
  handle_event-stopped :
      (e : RuntimeTelemetryEvent W) (s : GuardrailStorage W)
      → s.tasks e.task_id ≡ some t
      → (t.workspace_id == e.workspace_id) ≡ true
      → ((handle_event by_version clean e s).0.decision ≡ stop)
        × ((handle_event by_version clean e s).1.tasks ≡ s.tasks)
  unfolding handle_event by_state record_event_ingestion record_decision
  handle_event-stopped e s row own =
      rw
        (found_self e.task_id e.workspace_id e.agent_id t (record_event_ingestion e.event_id s) row
          own)
        (rw over (refl, refl))

  handle_event-keeps :
      (e : RuntimeTelemetryEvent W) (s : GuardrailStorage W)
      → s.tasks id ≡ some t
      → (handle_event by_version clean e s).1.tasks id ≡ some t
  handle_event-keeps e s row =
      elim (Bool-cases (id == e.task_id && (t.workspace_id == e.workspace_id))) [
        | inl mine ↦
            let same : id ≡ e.task_id = (eq_iff id e.task_id).0 (and_left _ _ mine) in
            ap (λ tasks. tasks id)
              (handle_event-stopped e s (ap s.tasks (sym same) ∙ row) (and_right _ _ mine)).1
            ∙ row
        | inr other ↦ handle_event-elsewhere by_version clean e id t s row other
      ]

  event-keeps :
      (failure : Bool) (e : RuntimeTelemetryEvent W) (s : GuardrailStorage W)
      → s.tasks id ≡ some t
      → (evaluate_runtime_event by_version clean failure e s).1.tasks id ≡ some t
  unfolding evaluate_runtime_event
  event-keeps failure e s row = elim (Bool-cases (s.ingested e.event_id)) [
    | inl old ↦ rw old row
    | inr new ↦ rw new (elim (Bool-cases failure) [
      | inl down ↦ rw down (ap (λ tasks. tasks id) (policy-tasks by_version e.workspace_id s) ∙ row)
      | inr up ↦ rw up (handle_event-keeps e s row)
    ])
  ]

  resumed-elsewhere :
      (state : TaskLifecycleState) (task workspace operator : String) (s : GuardrailStorage W)
      → s.tasks id ≡ some t
      → IsElsewhere id t task workspace
      → (resumed state task workspace operator s).1.tasks id ≡ some t
  unfolding resumed set_task_state
  resumed-elsewhere paused task workspace operator s row other =
      found-keeps id task workspace "" t
        (set_task_state task workspace active none (some operator) s)
        (update-elsewhere (with_state active none (some operator)) id task workspace t s row other)
  resumed-elsewhere active task workspace operator s row other = row
  resumed-elsewhere stopped task workspace operator s row other = row
  resumed-elsewhere completed task workspace operator s row other = row

  resume-stopped :
      (task workspace operator : String) (s : GuardrailStorage W)
      → s.tasks task ≡ some t
      → (t.workspace_id == workspace) ≡ true
      → resume_task task workspace operator s ≡ (none, s)
  unfolding resume_task resumed
  resume-stopped task workspace operator s row own =
      rw (found_self task workspace "" t s row own) (rw over refl)

  resume-keeps :
      (task workspace operator : String) (s : GuardrailStorage W)
      → s.tasks id ≡ some t
      → (resume_task task workspace operator s).1.tasks id ≡ some t
  unfolding resume_task
  resume-keeps task workspace operator s row =
      elim (Bool-cases (id == task && (t.workspace_id == workspace))) [
        | inl mine ↦
            let same : id ≡ task = (eq_iff id task).0 (and_left _ _ mine) in
            ap (λ r. r.1.tasks id)
              (resume-stopped task workspace operator s (ap s.tasks (sym same) ∙ row)
                (and_right _ _ mine))
            ∙ row
        | inr other ↦
            let (u, s') = get_or_create_task_state task workspace "" s in
            resumed-elsewhere u.state task workspace operator s'
              (found-keeps id task workspace "" t s row) other
      ]

  Step-keeps :
      {s s' : GuardrailStorage W}
      → Step by_version clean s s'
      → s.tasks id ≡ some t
      → s'.tasks id ≡ some t
  unfolding save_policy
  Step-keeps (event failure e s) row = event-keeps failure e s row
  Step-keeps (resume task workspace operator s) row = resume-keeps task workspace operator s row
  Step-keeps (query task workspace s) row = found-keeps id task workspace "" t s row
  Step-keeps (configure p s) row = row

  Reach-keeps :
      {s s' : GuardrailStorage W}
      → Reach by_version clean s s'
      → s.tasks id ≡ some t
      → s'.tasks id ≡ some t
  Reach-keeps here row = row
  Reach-keeps (next r st) row = Step-keeps st (Reach-keeps r row)

  -- A stopped task is final: whatever events, resumptions, queries and policies follow, its row is
  -- the same, its resumption fails and changes nothing, and an event of it with an id that was never
  -- ingested is answered by a stop.
  pub Reach-stopped :
      (e : RuntimeTelemetryEvent W) (operator : String) {s s' : GuardrailStorage W}
      → s.tasks id ≡ some t
      → Reach by_version clean s s'
      → e.task_id ≡ id
      → e.workspace_id ≡ t.workspace_id
      → s'.ingested e.event_id ≡ false
      → (s'.tasks id ≡ some t)
        × (resume_task id t.workspace_id operator s' ≡ (none, s'))
        × ((evaluate_runtime_event by_version clean false e s').0.decision ≡ stop)
  unfolding evaluate_runtime_event
  Reach-stopped e operator {s'} row r mine own new =
      let row' : s'.tasks id ≡ some t = Reach-keeps r row in
      (
        row',
        resume-stopped id t.workspace_id operator s' row' (eq_refl t.workspace_id),
        rw new
            (handle_event-stopped e s' (ap s'.tasks mine ∙ row')
              (rw own (eq_refl t.workspace_id))).0,
      )
