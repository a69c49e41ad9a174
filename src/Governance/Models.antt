-- ===== src/Governance/Models.antt =====
-- burnlens/governance/models.py. Instants are numbers.
use burnlens.Prelude.{ℕ, String, Bool, Option}
use burnlens.Prelude.Dict.{Dict}

pub data EnforcementMode : Type 0 where
  observe shadow approval_required enforced autonomous : EnforcementMode

pub data PolicyDecision : Type 0 where
  allow deny require_approval budget_exceeded : PolicyDecision

pub data RiskClassification : Type 0 where
  low medium high critical : RiskClassification

pub record PolicyRule (W : Type 0) : Type 0 where
  pub policy_id : String
  pub name : String
  pub workspace_id : String
  pub action_type : String
  pub risk_level : RiskClassification
  pub decision_if_matched : PolicyDecision
  pub condition_expression : String
  pub max_cost_usd : Option W
  pub target_pattern : String
  pub version : ℕ
  pub is_active : Bool
  pub created_at : ℕ
  pub updated_at : ℕ

-- why a decision was made; each is one message of the source with what it quotes
pub data Reason (W : Type 0) : Type 0 where
  default_allow : Reason W
  cost_exceeds : W → W → Reason W
  protected_merge : String → Reason W
  iam_disallowed : Reason W
  matched : String → String → Reason W

pub data EffectiveAction : Type 0 where
  allowed_by_shadow_mode blocked_pending_approval proceed denied autonomous_execute :
      EffectiveAction

pub record PolicyEvaluationRecord (W : Type 0) : Type 0 where
  pub evaluation_id : String
  pub workspace_id : String
  pub agent_id : String
  pub task_id : Option String
  pub run_id : Option String
  pub action_type : String
  pub target : String
  pub enforcement_mode : EnforcementMode
  pub decision : PolicyDecision
  pub effective_action_taken : EffectiveAction
  pub matched_policy_id : Option String
  pub reason : Reason W
  pub cost_usd : W
  pub context_metadata : Dict String
  pub evaluated_at : ℕ
