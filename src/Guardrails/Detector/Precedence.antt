-- ===== src/Guardrails/Detector/Precedence.antt =====
-- Which decision an event of an active task gets.
use burnlens.Prelude.{◌+◌, ◌≡◌, ◌↔◌, String, Bool, true, false, ◌||◌, leb, arith}
use burnlens.Float.{Float}
use burnlens.Guardrails.Models.{
  allow, pause, stop, deny, GuardrailPolicy, RuntimeTelemetryEvent, TaskState,
}
use burnlens.Guardrails.Detector.{one_if, is_forbidden, evaluate}

module _ {W : Type 0} ⦃f : Float W⦄ (clean : String → String) (e : RuntimeTelemetryEvent W)
    (t : TaskState W) (p : GuardrailPolicy W) where
  abbrev pub exceeds_budget : Bool
  exceeds_budget = f.lt p.hard_budget_usd (f.add t.total_cost_usd e.cost_usd)

  -- a count of the task, this event included, that has reached its limit
  abbrev pub reaches_limit : Bool
  reaches_limit =
      leb p.max_retries (t.retry_count + one_if e.is_retry)
      || leb p.max_consecutive_tool_errors (t.consecutive_tool_errors + one_if e.is_tool_error)
      || leb p.max_task_requests (t.request_count + 1)

  -- An event is denied exactly if its action is forbidden. Else the task is stopped exactly if the
  -- event takes its cost above the budget, else it is paused exactly if its retries, its tool errors
  -- or its requests reach their limits, and else the event is allowed.
  pub evaluate_iff :
      let decision = (evaluate clean e t p).decision in
      let forbidden = is_forbidden clean e.action_type p.forbidden_actions in
      (decision ≡ deny ↔ forbidden ≡ true)
      × (decision ≡ stop ↔ (forbidden ≡ false × exceeds_budget ≡ true))
      × (decision ≡ pause ↔ (forbidden ≡ false × exceeds_budget ≡ false × reaches_limit ≡ true))
      × (decision ≡ allow ↔ (forbidden ≡ false × exceeds_budget ≡ false × reaches_limit ≡ false))
  unfolding evaluate
  evaluate_iff = ground arith
