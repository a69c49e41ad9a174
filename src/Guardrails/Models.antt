-- ===== src/Guardrails/Models.antt =====
-- The data of burnlens/guardrails/models.py. Limits and counts are natural numbers, and instants
-- that are only stored are left out. A reason is a constructor with the values that it quotes.
use burnlens.Prelude.{ℕ, String, Bool, true, Option, List, [], ◌∷◌}
use burnlens.Float.{Float}

pub data GuardrailDecisionType : Type 0 where
  allow : GuardrailDecisionType
  pause : GuardrailDecisionType
  stop : GuardrailDecisionType
  deny : GuardrailDecisionType

pub data GuardrailFailureType : Type 0 where
  no_failure : GuardrailFailureType
  retry_storm : GuardrailFailureType
  hard_budget_exceeded : GuardrailFailureType
  runaway_task : GuardrailFailureType
  repeated_tool_error : GuardrailFailureType
  forbidden_action : GuardrailFailureType

pub data TaskLifecycleState : Type 0 where
  active : TaskLifecycleState
  paused : TaskLifecycleState
  stopped : TaskLifecycleState
  completed : TaskLifecycleState

pub data FailSafeMode : Type 0 where
  fail_open : FailSafeMode
  fail_closed : FailSafeMode

pub record GuardrailPolicy (W : Type 0) : Type 0 where
  pub policy_id : String
  pub workspace_id : String
  pub name : String
  pub max_retries : ℕ
  pub hard_budget_usd : W
  pub max_consecutive_tool_errors : ℕ
  pub max_task_requests : ℕ
  pub forbidden_actions : List String
  pub fail_safe_mode : FailSafeMode
  pub version : ℕ
  pub is_active : Bool

pub record RuntimeTelemetryEvent (W : Type 0) : Type 0 where
  pub event_id : String
  pub workspace_id : String
  pub agent_id : String
  pub task_id : String
  pub action_type : String
  pub cost_usd : W
  pub is_retry : Bool
  pub is_tool_error : Bool

pub data Reason (W : Type 0) : Type 0 where
  prohibited : String → Reason W
  over_budget : W → W → Reason W
  retries : ℕ → ℕ → Reason W
  tool_errors : ℕ → ℕ → Reason W
  requests : ℕ → ℕ → Reason W
  within_bounds : Reason W
  duplicate : Reason W
  closed_failure : Reason W
  open_failure : Reason W
  terminal_failure : Reason W
  awaiting_operator : Reason W
  is_stopped : Reason W → Reason W
  is_paused : Reason W → Reason W

pub data Metrics (W : Type 0) : Type 0 where
  no_metrics : Metrics W
  cost_only : W → Metrics W
  -- the cost, the retries, the tool errors, the requests and the action
  snapshot : W → ℕ → ℕ → ℕ → String → Metrics W

pub record Threshold (W : Type 0) : Type 0 where
  pub hard_budget_usd : W
  pub max_retries : ℕ
  pub max_consecutive_tool_errors : ℕ
  pub max_task_requests : ℕ
  pub forbidden_actions : List String

pub record GuardrailDecision (W : Type 0) : Type 0 where
  pub workspace_id : String
  pub agent_id : String
  pub task_id : String
  pub decision : GuardrailDecisionType
  pub failure_type : GuardrailFailureType
  pub reason : Reason W
  pub current_metrics : Metrics W
  pub threshold : Option (Threshold W)

-- a row of `task_guardrail_state`
pub record TaskState (W : Type 0) : Type 0 where
  pub workspace_id : String
  pub agent_id : String
  pub state : TaskLifecycleState
  pub total_cost_usd : W
  pub retry_count : ℕ
  pub consecutive_tool_errors : ℕ
  pub request_count : ℕ
  pub paused_reason : Option (Reason W)
  pub resumed_by : Option String
  pub stopped_reason : Option (Reason W)

module _ {W : Type 0} ⦃f : Float W⦄ where
  -- the defaults of `GuardrailPolicy`, as `get_or_create_default_policy` names them
  unfoldable pub default_policy : String → String → GuardrailPolicy W
  default_policy policy_id workspace = record {
    policy_id = policy_id;
    workspace_id = workspace;
    name = "Default Workspace Guardrails";
    max_retries = 3;
    hard_budget_usd = f.lit 25 0;
    max_consecutive_tool_errors = 3;
    max_task_requests = 50;
    forbidden_actions = "change_iam" ∷ "drop_database" ∷ "direct_push_main" ∷ "auto_merge" ∷ [];
    fail_safe_mode = fail_closed;
    version = 1;
    is_active = true;
  }
