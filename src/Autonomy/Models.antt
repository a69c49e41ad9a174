-- ===== src/Autonomy/Models.antt =====
-- burnlens/autonomy/models.py and the tables of burnlens/autonomy/storage.py: plans by id, the audit
-- trail in the order of its events, and the kill switches of workspaces. Instants, the plan's
-- fingerprint and the ids of audit events, which nothing reads, are left out.
use burnlens.Prelude.{
  ℕ, String, Bool, false, Option, none, some, List, [], ◌∷◌, ◌++◌, ◌==◌, if◌then◌else◌,
}
use burnlens.Json.{Json}
use burnlens.Trust.Calculator.{AutonomyLevel}
use burnlens.Trust.Engine.{CheckReason, TrustStorage}
use burnlens.Savings.Engine.{VerificationVerdict, VerdictReason, VerificationStorage}

pub data CanaryStatus : Type 0 where
  proposed canary_active verified_expanded rolled_back aborted : CanaryStatus

pub data AutonomousLoopStage : Type 0 where
  detect investigate simulate policy_check canary_act observe verify expand rollback trust_update :
      AutonomousLoopStage

-- the actions of audit events, each with its details
pub data AuditAction (W : Type 0) : Type 0 where
  aborted_kill_switch : AuditAction W
  anomaly_detected : String → String → String → AuditAction W
  cause_explained : String → AuditAction W
  optimization_simulated : W → Json → AuditAction W
  autonomy_denied : CheckReason → W → AuditAction W
  autonomy_approved : W → AutonomyLevel → AuditAction W
  canary_deployed : W → W → AuditAction W
  observation_collected : ℕ → W → AuditAction W
  verification_result : VerificationVerdict → W → W → VerdictReason W → AuditAction W
  expanded_to_100_percent : W → AuditAction W
  canary_automatically_rolled_back : VerdictReason W → AuditAction W
  trust_score_increased : W → AuditAction W
  trust_score_adjusted_for_rollback : W → AuditAction W

pub record AuditEvent (W : Type 0) : Type 0 where
  pub plan_id : String
  pub workspace_id : String
  pub stage : AutonomousLoopStage
  pub action : AuditAction W

pub record AutonomousOptimizationPlan (W : Type 0) : Type 0 where
  pub plan_id : String
  pub workspace_id : String
  pub agent_id : String
  pub recommendation_id : String
  pub category : String
  pub target_config : Json
  pub canary_percentage : W
  pub max_canary_spend_usd : W
  pub canary_status : CanaryStatus
  pub is_kill_switched : Bool

pub record AutonomousLoopResult (W : Type 0) : Type 0 where
  pub plan_id : String
  pub workspace_id : String
  pub agent_id : String
  pub recommendation_id : String
  pub final_status : CanaryStatus
  pub initial_savings_projected : W
  pub verified_savings_realized : W
  pub quality_change : W
  pub expanded : Bool
  pub rolled_back : Bool
  pub updated_trust_score : W
  pub audit_timeline : List (AuditEvent W)

-- the tables that a cycle reads and writes
pub record ControlPlane (W : Type 0) : Type 0 where
  pub plans : String → Option (AutonomousOptimizationPlan W)
  pub audit_trail : List (AuditEvent W)
  pub kill_switches : String → Option Bool
  pub trust : TrustStorage W
  pub verification : VerificationStorage W

or_false : Option Bool → Bool
or_false none = false
or_false (some b) = b

module _ {W : Type 0} where
  -- `save_plan`
  unfoldable pub save_plan : AutonomousOptimizationPlan W → ControlPlane W → ControlPlane W
  save_plan p s = record s { plans = λ id. if id == p.plan_id then some p else s.plans id }

  with_status :
      CanaryStatus → Option (AutonomousOptimizationPlan W) → Option (AutonomousOptimizationPlan W)
  with_status status none = none
  with_status status (some p) = some (record p { canary_status = status })

  -- `update_plan_status`
  unfoldable pub update_plan_status : String → CanaryStatus → ControlPlane W → ControlPlane W
  unfolding with_status
  update_plan_status plan status s = record s {
    plans = λ id. if id == plan then with_status status (s.plans id) else s.plans id;
  }

  -- `record_audit_event`
  unfoldable pub record_audit_event : AuditEvent W → ControlPlane W → ControlPlane W
  record_audit_event e s = record s { audit_trail = s.audit_trail ++ e ∷ [] }

  -- `set_workspace_kill_switch`
  unfoldable pub set_workspace_kill_switch : String → Bool → ControlPlane W → ControlPlane W
  set_workspace_kill_switch workspace is_disabled s = record s {
    kill_switches = λ w. if w == workspace then some is_disabled else s.kill_switches w;
  }

  -- `is_workspace_kill_switched`
  unfoldable pub is_workspace_kill_switched : String → ControlPlane W → Bool
  unfolding or_false
  is_workspace_kill_switched workspace s = or_false (s.kill_switches workspace)
