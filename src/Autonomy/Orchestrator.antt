-- ===== src/Autonomy/Orchestrator.antt =====
-- `AutonomousControlPlane.execute_optimization_cycle` of burnlens/autonomy/orchestrator.py. The new
-- ids are arguments; an exception leaves the tables as they were when it was raised. `clean` is
-- `strip().lower()` and `fingerprint` the hash of a baseline.
pub mod Outcomes
use burnlens.Prelude.{
  ℕ, String, Bool, true, false, Option, none, some, List, [], ◌∷◌, ◌++◌, if◌then◌else◌,
}
use burnlens.Float.{Float, nought, min}
use burnlens.Json.{Json}
use burnlens.Trust.Calculator.{AgentTrustProfile, Evidence}
use burnlens.Trust.Engine.{
  AutonomyEligibilityCheck, TrustStorage, ActionRequest, evaluate_agent_trust,
  check_autonomy_eligibility,
}
use burnlens.Savings.Engine.{
  VerificationVerdict, pass, fail, inconclusive, BaselineSnapshot, SavingsVerificationRecord,
  VerificationStorage, Result, ok, raise, Observation, record_baseline, verify_savings,
}
use burnlens.Autonomy.Models.{
  CanaryStatus, canary_active, verified_expanded, rolled_back, aborted, AutonomousLoopStage, detect,
  investigate, simulate, policy_check, canary_act, observe, verify, expand, rollback, trust_update,
  AuditAction, aborted_kill_switch, anomaly_detected, cause_explained, optimization_simulated,
  autonomy_denied, autonomy_approved, canary_deployed, observation_collected, verification_result,
  expanded_to_100_percent, canary_automatically_rolled_back, trust_score_increased,
  trust_score_adjusted_for_rollback, AuditEvent, AutonomousOptimizationPlan, AutonomousLoopResult,
  ControlPlane, save_plan, update_plan_status, record_audit_event, is_workspace_kill_switched,
}

-- the arguments of a cycle, and the ids made in it
pub record CycleRequest (W : Type 0) : Type 0 where
  pub plan_id : String
  pub snapshot_id : String
  pub verification_id : String
  pub workspace_id : String
  pub agent_id : String
  pub recommendation_id : String
  pub category : String
  pub target_config : Json
  pub projected_saving_usd : W
  pub baseline_cost_usd : W
  pub baseline_requests : ℕ
  pub baseline_accepted_outcomes : ℕ
  pub post_change_cost_usd : W
  pub post_change_requests : ℕ
  pub post_change_accepted_outcomes : ℕ
  pub canary_percentage : W
  pub max_canary_spend_usd : W

-- the tables with the cycle's own `timeline`
pub record Cycle (W : Type 0) : Type 0 where
  pub timeline : List (AuditEvent W)
  pub tables : ControlPlane W

abbrev pub is_pass : VerificationVerdict → Bool
is_pass pass = true
is_pass _ = false

module _ {W : Type 0} (r : CycleRequest W) where
  -- `log_stage`
  unfoldable pub log_stage : AutonomousLoopStage → AuditAction W → Cycle W → Cycle W
  log_stage stage action c =
      let e : AuditEvent W = record {
        plan_id = r.plan_id;
        workspace_id = r.workspace_id;
        stage = stage;
        action = action;
      } in
      record { timeline = c.timeline ++ e ∷ []; tables = record_audit_event e c.tables }

  -- stages 1 to 3
  unfoldable pub log_detection : Cycle W → Cycle W
  log_detection c =
      log_stage simulate (optimization_simulated r.projected_saving_usd r.target_config) (
        log_stage investigate (cause_explained r.category)
          (log_stage detect (anomaly_detected r.category r.agent_id r.recommendation_id) c))

module _ {W : Type 0} ⦃f : Float W⦄ where
  -- the evidence written after an expansion, and after a rollback
  abbrev pub trust_evidence : Bool → Evidence W
  trust_evidence true = record {
    task_success_rate = f.lit 98 2;
    accepted_outcome_rate = f.lit 96 2;
    rollback_rate = nought;
    policy_violation_rate = nought;
    waste_ratio = f.lit 2 2;
    total_tasks = 50;
    total_spend_usd = f.lit 1000 1;
  }
  trust_evidence false = record {
    task_success_rate = f.lit 90 2;
    accepted_outcome_rate = f.lit 85 2;
    rollback_rate = f.lit 8 2;
    policy_violation_rate = nought;
    waste_ratio = f.lit 5 2;
    total_tasks = 50;
    total_spend_usd = f.lit 1000 1;
  }

module _ {W : Type 0} ⦃f : Float W⦄ (r : CycleRequest W) where
  -- the result of a cycle that does not act
  unfoldable pub abort : W → Cycle W → Result (AutonomousLoopResult W) × ControlPlane W
  abort score c = (
    ok (record {
      plan_id = r.plan_id;
      workspace_id = r.workspace_id;
      agent_id = r.agent_id;
      recommendation_id = r.recommendation_id;
      final_status = aborted;
      initial_savings_projected = r.projected_saving_usd;
      verified_savings_realized = nought;
      quality_change = nought;
      expanded = false;
      rolled_back = false;
      updated_trust_score = score;
      audit_timeline = c.timeline;
    }),
    c.tables,
  )

  abbrev pub eligibility_request : ActionRequest W
  eligibility_request = record {
    action_type = r.category;
    estimated_cost_usd = r.max_canary_spend_usd;
    is_reversible = true;
    max_autonomous_spend = r.max_canary_spend_usd;
  }

  unfoldable pub canary_plan : AutonomousOptimizationPlan W
  canary_plan = record {
    plan_id = r.plan_id;
    workspace_id = r.workspace_id;
    agent_id = r.agent_id;
    recommendation_id = r.recommendation_id;
    category = r.category;
    target_config = r.target_config;
    canary_percentage = min r.canary_percentage (f.lit 100 1);
    max_canary_spend_usd = r.max_canary_spend_usd;
    canary_status = canary_active;
    is_kill_switched = false;
  }

  abbrev pub observation : Observation W
  observation = record {
    projected_saving_usd = r.projected_saving_usd;
    post_change_cost_usd = r.post_change_cost_usd;
    post_change_requests = r.post_change_requests;
    post_change_accepted_outcomes = r.post_change_accepted_outcomes;
    min_sample_size = 10;
    max_tolerable_quality_drop = f.lit 3 2;
  }

  unfoldable pub update_trust : Bool → Cycle W → W × Cycle W
  update_trust passed c =
      let (p, t) =
        evaluate_agent_trust r.agent_id r.workspace_id (trust_evidence passed) c.tables.trust in
      let c' : Cycle W = record c { tables = record c.tables { trust = t } } in
      (
        p.trust_score,
        log_stage r trust_update
            (if passed
              then trust_score_increased p.trust_score
              else trust_score_adjusted_for_rollback p.trust_score)
            c',
      )

  unfoldable pub log_verdict : SavingsVerificationRecord W → Cycle W → Cycle W
  log_verdict v =
      log_stage r verify
        (verification_result v.verdict v.actual_saving_usd v.quality_change v.reason)

  unfoldable pub move_canary : SavingsVerificationRecord W → Cycle W → Cycle W
  move_canary v c =
      if is_pass v.verdict
      then log_stage r expand (expanded_to_100_percent v.actual_saving_usd)
          (record c { tables = update_plan_status r.plan_id verified_expanded c.tables })
      else log_stage r rollback (canary_automatically_rolled_back v.reason)
          (record c { tables = update_plan_status r.plan_id rolled_back c.tables })

  -- from the verification's record to the end of the cycle
  unfoldable pub settle :
      SavingsVerificationRecord W → Cycle W → Result (AutonomousLoopResult W) × ControlPlane W
  settle v c =
      let passed = is_pass v.verdict in
      let (score, c') = update_trust passed (move_canary v (log_verdict v c)) in
      (
        ok (record {
          plan_id = r.plan_id;
          workspace_id = r.workspace_id;
          agent_id = r.agent_id;
          recommendation_id = r.recommendation_id;
          final_status = if passed then verified_expanded else rolled_back;
          initial_savings_projected = r.projected_saving_usd;
          verified_savings_realized = v.actual_saving_usd;
          quality_change = v.quality_change;
          expanded = passed;
          rolled_back = if passed then false else true;
          updated_trust_score = score;
          audit_timeline = c'.timeline;
        }),
        c'.tables,
      )

module _ {W : Type 0} ⦃f : Float W⦄ (clean : String → String)
    (fingerprint : BaselineSnapshot W → String) (r : CycleRequest W) where
  verified :
      Cycle W
      → Result (SavingsVerificationRecord W) × VerificationStorage W
      → Result (AutonomousLoopResult W) × ControlPlane W
  verified c (raise e, v) = (raise e, record c.tables { verification = v })
  verified c (ok x, v) = settle r x (record c { tables = record c.tables { verification = v } })

  observed :
      Cycle W
      → Result (BaselineSnapshot W) × VerificationStorage W
      → Result (AutonomousLoopResult W) × ControlPlane W
  observed c (raise e, v) = (raise e, record c.tables { verification = v })
  observed c (ok b, v) =
      verified
        (log_stage r observe (observation_collected r.post_change_requests r.post_change_cost_usd)
          (record c { tables = record c.tables { verification = v } }))
        (verify_savings fingerprint r.verification_id r.recommendation_id r.workspace_id
          (observation r) v)

  -- stages 5 to 9
  unfoldable pub run_canary : Cycle W → Result (AutonomousLoopResult W) × ControlPlane W
  unfolding observed verified
  run_canary c =
      let p = canary_plan r in
      let c' =
        log_stage r canary_act (canary_deployed p.canary_percentage p.max_canary_spend_usd)
          (record c { tables = save_plan p c.tables }) in
      observed c' (
        record_baseline fingerprint r.snapshot_id r.recommendation_id r.workspace_id
          r.baseline_cost_usd r.baseline_requests r.baseline_accepted_outcomes
          c'.tables.verification)

  -- stage 4 and what follows
  unfoldable pub after_policy_check :
      AutonomyEligibilityCheck W → Cycle W → Result (AutonomousLoopResult W) × ControlPlane W
  after_policy_check e c =
      if e.is_autonomous_eligible
      then run_canary
          (log_stage r policy_check (autonomy_approved e.trust_score e.autonomy_level) c)
      else abort r e.trust_score
          (log_stage r policy_check (autonomy_denied e.reason e.trust_score) c)

  unfoldable pub execute_optimization_cycle :
      ControlPlane W → Result (AutonomousLoopResult W) × ControlPlane W
  execute_optimization_cycle s =
      let c : Cycle W = record { timeline = []; tables = s } in
      if is_workspace_kill_switched r.workspace_id s
      then abort r nought (log_stage r detect aborted_kill_switch c)
      else (let c' = log_detection r c in
          let (e, t) =
            check_autonomy_eligibility clean r.agent_id r.workspace_id (eligibility_request r)
              c'.tables.trust in
          after_policy_check e (record c' { tables = record c'.tables { trust = t } }))
