-- ===== src/Guardrails/Engine.antt =====
-- `GuardrailEngine` of burnlens/guardrails/engine.py: the decision on an event of an agent's task,
-- and the resumption of a paused task.
pub mod Rows
pub mod History
pub mod Stopped
pub mod Duplicates
pub mod Active
pub mod Runaway
pub mod Resume
use Prim.Native.String.{◌++◌}
use text.Mathlib.Text.{find?}
use burnlens.Prelude.{
  String, Bool, not, ◌&&◌, ◌||◌, Option, none, some, List, starts_with, is_some, or_else,
  if◌then◌else◌,
}
use burnlens.Float.{Float}
use burnlens.Guardrails.Models.{
  GuardrailDecisionType, allow, pause, stop, deny, GuardrailFailureType, no_failure,
  hard_budget_exceeded, runaway_task, forbidden_action, TaskLifecycleState, active, paused, stopped,
  completed, FailSafeMode, fail_open, fail_closed, GuardrailPolicy, RuntimeTelemetryEvent, Reason,
  duplicate, closed_failure, open_failure, is_stopped, is_paused, terminal_failure,
  awaiting_operator, Metrics, no_metrics, cost_only, GuardrailDecision, TaskState, default_policy,
}
use burnlens.Guardrails.Detector.{evaluate}
use burnlens.Guardrails.Storage.{
  GuardrailStorage, save_policy, get_policy, record_event_ingestion, update_task, record_decision,
  set_task_state, get_or_create_task_state, with_metrics,
}

-- A tool's event without an error resets the count of errors in a row.
unfoldable pub resets_tool_errors : Bool → String → Bool
resets_tool_errors is_tool_error action =
    not is_tool_error && (starts_with action "tool_" || is_some (find? action "tool"))

module _ {W : Type 0} where
  -- a decision without a threshold
  abbrev pub refusal :
      RuntimeTelemetryEvent W
      → GuardrailDecisionType
      → GuardrailFailureType
      → Reason W
      → Metrics W
      → GuardrailDecision W
  refusal e decision failure reason metrics = record {
    workspace_id = e.workspace_id;
    agent_id = e.agent_id;
    task_id = e.task_id;
    decision = decision;
    failure_type = failure;
    reason = reason;
    current_metrics = metrics;
    threshold = none;
  }

  -- the fail-safe decision
  unfoldable pub fail_safe : FailSafeMode → RuntimeTelemetryEvent W → GuardrailDecision W
  fail_safe fail_closed e = refusal e deny forbidden_action closed_failure no_metrics
  fail_safe fail_open e = refusal e allow no_failure open_failure no_metrics

  -- the transition that a decision asks for
  unfoldable pub transition :
      GuardrailDecisionType → Reason W → String → String → GuardrailStorage W → GuardrailStorage W
  transition pause reason task workspace = set_task_state task workspace paused (some reason) none
  transition stop reason task workspace = set_task_state task workspace stopped (some reason) none
  transition allow reason task workspace = λ s. s
  transition deny reason task workspace = λ s. s

module _ {W : Type 0} ⦃f : Float W⦄
    (by_version : List (GuardrailPolicy W) → List (GuardrailPolicy W)) where
  policy_or_default :
      Option (GuardrailPolicy W)
      → String
      → GuardrailStorage W
      → GuardrailPolicy W × GuardrailStorage W
  policy_or_default (some p) workspace s = (p, s)
  policy_or_default none workspace s =
      let p = default_policy ("pol-guard-" ++ workspace) workspace in (p, save_policy p s)

  -- `get_or_create_default_policy`
  unfoldable pub get_or_create_default_policy :
      String → GuardrailStorage W → GuardrailPolicy W × GuardrailStorage W
  unfolding policy_or_default
  get_or_create_default_policy workspace s =
      policy_or_default (get_policy by_version workspace s) workspace s

  module _ (clean : String → String) where
    -- steps 4 to 6: the checks of an active task, its transition and its metrics
    unfoldable pub supervise :
        RuntimeTelemetryEvent W
        → TaskState W
        → GuardrailStorage W
        → GuardrailDecision W × GuardrailStorage W
    supervise e t s =
        let (p, s') = get_or_create_default_policy e.workspace_id s in
        let d = evaluate clean e t p in
        let moved = transition d.decision d.reason e.task_id e.workspace_id s' in
        let reset = resets_tool_errors e.is_tool_error e.action_type in
        let metered =
          update_task (with_metrics e.cost_usd e.is_retry e.is_tool_error reset) e.task_id
            e.workspace_id moved in
        (d, record_decision d metered)

    -- what becomes of an event by the state of its task
    unfoldable pub by_state :
        TaskLifecycleState
        → RuntimeTelemetryEvent W
        → TaskState W
        → GuardrailStorage W
        → GuardrailDecision W × GuardrailStorage W
    by_state stopped e t s =
        let reason = is_stopped (or_else t.stopped_reason terminal_failure) in
        let d = refusal e stop hard_budget_exceeded reason (cost_only t.total_cost_usd) in
        (d, record_decision d s)
    by_state paused e t s =
        let reason = is_paused (or_else t.paused_reason awaiting_operator) in
        let d = refusal e pause runaway_task reason (cost_only t.total_cost_usd) in
        (d, record_decision d s)
    by_state active e t s = supervise e t s
    by_state completed e t s = supervise e t s

    -- the rest of the evaluation, from the marking of the event as ingested
    unfoldable pub handle_event :
        RuntimeTelemetryEvent W → GuardrailStorage W → GuardrailDecision W × GuardrailStorage W
    handle_event e s =
        let (t, s') =
          get_or_create_task_state e.task_id e.workspace_id e.agent_id
            (record_event_ingestion e.event_id s) in
        by_state t.state e t s'

    failed_evaluation :
        RuntimeTelemetryEvent W → GuardrailStorage W → GuardrailDecision W × GuardrailStorage W
    failed_evaluation e s =
        let (p, s') = get_or_create_default_policy e.workspace_id s in
        (fail_safe p.fail_safe_mode e, s')

    -- `evaluate_runtime_event`
    unfoldable pub evaluate_runtime_event :
        Bool
        → RuntimeTelemetryEvent W
        → GuardrailStorage W
        → GuardrailDecision W × GuardrailStorage W
    unfolding failed_evaluation
    evaluate_runtime_event failure e s =
        if s.ingested e.event_id
        then (refusal e allow no_failure duplicate no_metrics, s)
        else if failure
        then failed_evaluation e s
        else handle_event e s

-- `resume_task`: `none` is its exception, with the storage as it stands then.
module _ {W : Type 0} ⦃f : Float W⦄ where
  resumed :
      TaskLifecycleState
      → String
      → String
      → String
      → GuardrailStorage W
      → Option (TaskState W) × GuardrailStorage W
  resumed paused task workspace operator s =
      let (t, s') =
        get_or_create_task_state task workspace ""
          (set_task_state task workspace active none (some operator) s) in
      (some t, s')
  resumed active task workspace operator s = (none, s)
  resumed stopped task workspace operator s = (none, s)
  resumed completed task workspace operator s = (none, s)

  unfoldable pub resume_task :
      String → String → String → GuardrailStorage W → Option (TaskState W) × GuardrailStorage W
  unfolding resumed
  resume_task task workspace operator s =
      let (t, s') = get_or_create_task_state task workspace "" s in
      resumed t.state task workspace operator s'
