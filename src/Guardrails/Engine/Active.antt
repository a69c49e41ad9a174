-- ===== src/Guardrails/Engine/Active.antt =====
-- What an event does to the row of its active task.
use burnlens.Prelude.{◌≡◌, refl, ap, ◌∙◌, ◌==◌, String, true, none, some, List}
use burnlens.Float.{Float}
use burnlens.Guardrails.Models.{
  GuardrailDecisionType, allow, pause, stop, deny, active, paused, stopped, GuardrailPolicy,
  RuntimeTelemetryEvent, TaskState, Reason,
}
use burnlens.Guardrails.Detector.{evaluate}
use burnlens.Guardrails.Storage.{
  GuardrailStorage, get_policy, record_event_ingestion, record_decision, with_state, with_metrics,
  set_task_state, update_task,
}
use burnlens.Guardrails.Engine.{resets_tool_errors, transition, handle_event, by_state, supervise}
use burnlens.Guardrails.Engine.Rows.{update_self, found_self, policy-found}

module _ {W : Type 0} where
  -- the row after the transition of a decision
  abbrev pub moved : GuardrailDecisionType → Reason W → TaskState W → TaskState W
  moved pause reason t = with_state paused (some reason) none t
  moved stop reason t = with_state stopped (some reason) none t
  moved allow reason t = t
  moved deny reason t = t

  transition_self :
      (d : GuardrailDecisionType) (r : Reason W) (id workspace : String) (t : TaskState W)
      (s : GuardrailStorage W)
      → s.tasks id ≡ some t
      → (t.workspace_id == workspace) ≡ true
      → (transition d r id workspace s).tasks id ≡ some (moved d r t)
  unfolding transition set_task_state
  transition_self pause r id workspace t s row own =
      update_self (with_state paused (some r) none) id workspace t s row own
  transition_self stop r id workspace t s row own =
      update_self (with_state stopped (some r) none) id workspace t s row own
  transition_self allow r id workspace t s row own = row
  transition_self deny r id workspace t s row own = row

  update-policies :
      (change : TaskState W → TaskState W) (id workspace : String) (s : GuardrailStorage W)
      → (update_task change id workspace s).policies ≡ s.policies
  unfolding update_task
  update-policies change id workspace s = refl

  transition-policies :
      (d : GuardrailDecisionType) (r : Reason W) (id workspace : String) (s : GuardrailStorage W)
      → (transition d r id workspace s).policies ≡ s.policies
  unfolding transition set_task_state update_task
  transition-policies pause r id workspace s = refl
  transition-policies stop r id workspace s = refl
  transition-policies allow r id workspace s = refl
  transition-policies deny r id workspace s = refl

  pub moved-workspace :
      (d : GuardrailDecisionType) (r : Reason W) (t : TaskState W)
      → (moved d r t).workspace_id ≡ t.workspace_id
  unfolding with_state
  moved-workspace pause r t = refl
  moved-workspace stop r t = refl
  moved-workspace allow r t = refl
  moved-workspace deny r t = refl

  pub moved-requests :
      (d : GuardrailDecisionType) (r : Reason W) (t : TaskState W)
      → (moved d r t).request_count ≡ t.request_count
  unfolding with_state
  moved-requests pause r t = refl
  moved-requests stop r t = refl
  moved-requests allow r t = refl
  moved-requests deny r t = refl

module _ {W : Type 0} ⦃f : Float W⦄
    (by_version : List (GuardrailPolicy W) → List (GuardrailPolicy W))
    (clean : String → String) where
  -- the row of an active task after an event of it
  abbrev pub row_after : RuntimeTelemetryEvent W → GuardrailPolicy W → TaskState W → TaskState W
  row_after e p t =
      let d = evaluate clean e t p in
      with_metrics e.cost_usd e.is_retry e.is_tool_error
        (resets_tool_errors e.is_tool_error e.action_type) (moved d.decision d.reason t)

  supervise_self :
      (e : RuntimeTelemetryEvent W) (p : GuardrailPolicy W) (t : TaskState W)
      (s : GuardrailStorage W)
      → s.tasks e.task_id ≡ some t
      → (t.workspace_id == e.workspace_id) ≡ true
      → get_policy by_version e.workspace_id s ≡ some p
      → ((supervise by_version clean e t s).1.tasks e.task_id ≡ some (row_after e p t))
        × ((supervise by_version clean e t s).1.policies ≡ s.policies)
  unfolding supervise record_decision
  supervise_self e p t s row own policy =
      let d = evaluate clean e t p in
      rw (policy-found by_version e.workspace_id p s policy) (
        update_self _ e.task_id e.workspace_id (moved d.decision d.reason t) _
            (transition_self d.decision d.reason e.task_id e.workspace_id t s row own)
            (rw (moved-workspace d.decision d.reason t) own),
        update-policies _ e.task_id e.workspace_id _
            ∙ transition-policies d.decision d.reason e.task_id e.workspace_id s,
      )

  handle_event-supervise :
      (e : RuntimeTelemetryEvent W) (t : TaskState W) (s : GuardrailStorage W)
      → s.tasks e.task_id ≡ some t
      → (t.workspace_id == e.workspace_id) ≡ true
      → t.state ≡ active
      → handle_event by_version clean e s
        ≡ supervise by_version clean e t (record_event_ingestion e.event_id s)
  unfolding handle_event by_state record_event_ingestion
  handle_event-supervise e t s row own going =
      let s0 = record_event_ingestion e.event_id s in
      ap (λ r. by_state by_version clean r.0.state e r.0 r.1)
        (found_self e.task_id e.workspace_id e.agent_id t s0 row own)
      ∙ ap (λ state. by_state by_version clean state e t s0) going

  pub handle_event-active :
      (e : RuntimeTelemetryEvent W) (p : GuardrailPolicy W) (t : TaskState W)
      (s : GuardrailStorage W)
      → s.tasks e.task_id ≡ some t
      → (t.workspace_id == e.workspace_id) ≡ true
      → t.state ≡ active
      → get_policy by_version e.workspace_id s ≡ some p
      → ((handle_event by_version clean e s).1.tasks e.task_id ≡ some (row_after e p t))
        × ((handle_event by_version clean e s).1.policies ≡ s.policies)
  unfolding record_event_ingestion get_policy
  handle_event-active e p t s row own going policy =
      rw (handle_event-supervise e t s row own going)
        (supervise_self e p t (record_event_ingestion e.event_id s) row own policy)
