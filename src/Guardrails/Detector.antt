-- ===== src/Guardrails/Detector.antt =====
-- `GuardrailDetector` of burnlens/guardrails/detector.py. `clean` is `s.strip().lower()`.
pub mod Precedence
use burnlens.Prelude.{ℕ, ◌+◌, String, Bool, some, List, ◌==◌, leb, if◌then◌else◌}
use burnlens.Prelude.Lists.{any}
use burnlens.Float.{Float}
use burnlens.Guardrails.Models.{
  GuardrailDecisionType, allow, pause, stop, deny, GuardrailFailureType, no_failure, retry_storm,
  hard_budget_exceeded, runaway_task, repeated_tool_error, forbidden_action, GuardrailPolicy,
  RuntimeTelemetryEvent, Reason, prohibited, over_budget, retries, tool_errors, requests,
  within_bounds, Metrics, snapshot, Threshold, GuardrailDecision, TaskState,
}

-- `1 if b else 0`
abbrev pub one_if : Bool → ℕ
one_if b = if b then 1 else 0

-- `detect_forbidden_action`
unfoldable pub is_forbidden : (String → String) → String → List String → Bool
is_forbidden clean action_type forbidden_actions =
    any (λ forbidden. clean action_type == clean forbidden) forbidden_actions

module _ {W : Type 0} where
  -- the fields that every branch fills in one way
  abbrev pub decide :
      RuntimeTelemetryEvent W
      → Metrics W
      → Threshold W
      → GuardrailDecisionType
      → GuardrailFailureType
      → Reason W
      → GuardrailDecision W
  decide e metrics threshold decision failure reason = record {
    workspace_id = e.workspace_id;
    agent_id = e.agent_id;
    task_id = e.task_id;
    decision = decision;
    failure_type = failure;
    reason = reason;
    current_metrics = metrics;
    threshold = some threshold;
  }

  abbrev pub threshold_of : GuardrailPolicy W → Threshold W
  threshold_of p = record {
    hard_budget_usd = p.hard_budget_usd;
    max_retries = p.max_retries;
    max_consecutive_tool_errors = p.max_consecutive_tool_errors;
    max_task_requests = p.max_task_requests;
    forbidden_actions = p.forbidden_actions;
  }

module _ {W : Type 0} ⦃f : Float W⦄ where
  -- `evaluate`
  unfoldable pub evaluate :
      (String → String)
      → RuntimeTelemetryEvent W
      → TaskState W
      → GuardrailPolicy W
      → GuardrailDecision W
  evaluate clean e t p =
      let cost = f.add t.total_cost_usd e.cost_usd in
      let retry_count = t.retry_count + one_if e.is_retry in
      let errors = t.consecutive_tool_errors + one_if e.is_tool_error in
      let count = t.request_count + 1 in
      let metrics = snapshot (f.round cost 4) retry_count errors count e.action_type in
      let result = decide e metrics (threshold_of p) in
      if is_forbidden clean e.action_type p.forbidden_actions
      then result deny forbidden_action (prohibited e.action_type)
      else if f.lt p.hard_budget_usd cost
      then result stop hard_budget_exceeded (over_budget p.hard_budget_usd cost)
      else if leb p.max_retries retry_count
      then result pause retry_storm (retries retry_count p.max_retries)
      else if leb p.max_consecutive_tool_errors errors
      then result pause repeated_tool_error (tool_errors errors p.max_consecutive_tool_errors)
      else if leb p.max_task_requests count
      then result pause runaway_task (requests count p.max_task_requests)
      else result allow no_failure within_bounds
