-- ===== src/Trust/Calculator.antt =====
-- burnlens/trust/calculator.py and the profile of burnlens/trust/models.py. The profile's
-- `breakdown`, which repeats the components for display, is left out.
pub mod Levels
use burnlens.Prelude.{ℕ, String, Bool, true, false, ◌||◌, ltb, if◌then◌else◌}
use burnlens.Float.{Float, nought, max, min}

pub data AutonomyLevel : Type 0 where
  restricted standard earned_autonomy : AutonomyLevel

pub record AgentTrustProfile (W : Type 0) : Type 0 where
  pub agent_id : String
  pub workspace_id : String
  pub trust_score : W
  pub task_success_rate : W
  pub accepted_outcome_rate : W
  pub rollback_rate : W
  pub policy_violation_rate : W
  pub waste_ratio : W
  pub total_tasks : ℕ
  pub total_spend_usd : W
  pub autonomy_level : AutonomyLevel
  pub is_sparse_history : Bool

-- the evidence that `calculate_score` takes
pub record Evidence (W : Type 0) : Type 0 where
  pub task_success_rate : W
  pub accepted_outcome_rate : W
  pub rollback_rate : W
  pub policy_violation_rate : W
  pub waste_ratio : W
  pub total_tasks : ℕ
  pub total_spend_usd : W

abbrev pub minimum_task_history_threshold : ℕ
minimum_task_history_threshold = 10

module _ {W : Type 0} ⦃f : Float W⦄ where
  abbrev pub one : W
  one = f.lit 1 0

  -- `max(0.0, min(hi, x))`
  unfoldable pub clamp : W → W → W
  clamp hi x = max nought (min hi x)

  unfoldable pub raw_score : Evidence W → W
  unfolding clamp
  raw_score e =
      let c_outcome = f.mul (clamp one e.accepted_outcome_rate) (f.lit 350 1) in
      let c_success = f.mul (clamp one e.task_success_rate) (f.lit 250 1) in
      let c_violation = f.mul (f.sub one (clamp one e.policy_violation_rate)) (f.lit 200 1) in
      let c_rollback = f.mul (f.sub one (clamp one e.rollback_rate)) (f.lit 100 1) in
      let c_waste = f.mul (f.sub one (clamp one e.waste_ratio)) (f.lit 100 1) in
      clamp (f.lit 1000 1)
        (f.add (f.add (f.add (f.add c_outcome c_success) c_violation) c_rollback) c_waste)

  unfoldable pub is_sparse : Evidence W → Bool
  is_sparse e = ltb e.total_tasks minimum_task_history_threshold

  unfoldable pub effective_score : Evidence W → W
  effective_score e =
      let raw = raw_score e in
      if is_sparse e
      then (let confidence_factor =
            f.div (f.of_nat e.total_tasks) (f.of_nat minimum_task_history_threshold) in
          f.round
            (f.add (f.mul (f.lit 300 1) (f.sub one confidence_factor))
              (f.mul raw confidence_factor))
            1)
      else f.round raw 1

  unfoldable pub level_of : Bool → W → AutonomyLevel
  level_of sparse score =
      if sparse || f.lt score (f.lit 500 1)
      then restricted
      else if f.lt score (f.lit 800 1)
      then standard
      else earned_autonomy

  -- `TrustCalculator.calculate_score`
  unfoldable pub calculate_score : String → String → Evidence W → AgentTrustProfile W
  calculate_score agent_id workspace_id e = record {
    agent_id = agent_id;
    workspace_id = workspace_id;
    trust_score = effective_score e;
    task_success_rate = f.round (clamp one e.task_success_rate) 4;
    accepted_outcome_rate = f.round (clamp one e.accepted_outcome_rate) 4;
    rollback_rate = f.round (clamp one e.rollback_rate) 4;
    policy_violation_rate = f.round (clamp one e.policy_violation_rate) 4;
    waste_ratio = f.round (clamp one e.waste_ratio) 4;
    total_tasks = e.total_tasks;
    total_spend_usd = f.round e.total_spend_usd 4;
    autonomy_level = level_of (is_sparse e) (effective_score e);
    is_sparse_history = is_sparse e;
  }
