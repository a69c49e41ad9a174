-- ===== src/Autonomy/Tests.antt =====
-- The theorems on the optimisation loop at work: an agent that has earned autonomy.
use burnlens.Prelude.{
  ℕ, ◌≡◌, refl, inl, String, Bool, true, false, Option, none, some, [], ◌∷◌, ◌++◌, arith,
}
use burnlens.Float.Micro.{micro}
use burnlens.Json.{null}
use burnlens.Trust.Calculator.{AgentTrustProfile, earned_autonomy}
use burnlens.Trust.Engine.{
  check_autonomy_eligibility, check_of, reason_for, load_profile, record_audit,
}
use burnlens.Savings.Engine.{BaselineSnapshot, ok, raise, no_baseline_requests}
use burnlens.Autonomy.Models.{
  aborted, canary_active, ControlPlane, AutonomousLoopResult, is_workspace_kill_switched,
}
use burnlens.Autonomy.Orchestrator.{CycleRequest, canary_plan, execute_optimization_cycle}
use burnlens.Autonomy.Orchestrator.Outcomes.{
  is_eligible, verification_of, IsSettled, execute_optimization_cycle_aborts,
  execute_optimization_cycle_settles, execute_optimization_cycle_strands,
}

abbrev clean : String → String
clean s = s

abbrev fingerprint : BaselineSnapshot ℕ → String
fingerprint b = b.snapshot_id

abbrev profile : AgentTrustProfile ℕ
profile = record {
  agent_id = "coder";
  workspace_id = "acme";
  trust_score = 90000000;
  task_success_rate = 980000;
  accepted_outcome_rate = 960000;
  rollback_rate = 0;
  policy_violation_rate = 0;
  waste_ratio = 20000;
  total_tasks = 50;
  total_spend_usd = 100000000;
  autonomy_level = earned_autonomy;
  is_sparse_history = false;
}

abbrev tables : Option Bool → ControlPlane ℕ
tables switch = record {
  plans = λ id. none;
  audit_trail = [];
  kill_switches = λ w. switch;
  trust = record { profiles = λ a w. some profile; audits = [] };
  verification = record { baselines = λ w r. none; records = [] };
}

abbrev request : ℕ → CycleRequest ℕ
request baseline_requests = record {
  plan_id = "plan-1";
  snapshot_id = "snap-1";
  verification_id = "ver-1";
  workspace_id = "acme";
  agent_id = "coder";
  recommendation_id = "rec-1";
  category = "reduce_context";
  target_config = null;
  projected_saving_usd = 5000000;
  baseline_cost_usd = 10000000;
  baseline_requests = baseline_requests;
  baseline_accepted_outcomes = 90;
  post_change_cost_usd = 4000000;
  post_change_requests = 100;
  post_change_accepted_outcomes = 90;
  canary_percentage = 25000000;
  max_canary_spend_usd = 5000000;
}

killed : is_workspace_kill_switched "acme" (tables (some true)) ≡ true
unfolding is_workspace_kill_switched
killed = refl

live : is_workspace_kill_switched "acme" (tables none) ≡ false
unfolding is_workspace_kill_switched
live = refl

eligible : (n : ℕ) → is_eligible clean fingerprint (request n) (tables none) ≡ true
unfolding check_autonomy_eligibility check_of reason_for load_profile record_audit
eligible n = refl

execute_optimization_cycle_aborts_example :
    let (result, s') =
      execute_optimization_cycle clean fingerprint (request 100) (tables (some true)) in
    ((x : AutonomousLoopResult ℕ) × (result ≡ ok x) × (x.final_status ≡ aborted))
    × (s'.plans ≡ (tables (some true)).plans)
    × (s'.verification ≡ (tables (some true)).verification)
    × (is_workspace_kill_switched "acme" (tables (some true)) ≡ true
        → s'.trust ≡ (tables (some true)).trust)
execute_optimization_cycle_aborts_example =
    execute_optimization_cycle_aborts clean fingerprint (request 100) (tables (some true))
      (inl killed)

execute_optimization_cycle_settles_example :
    IsSettled clean fingerprint
      (request 100)
      (verification_of clean fingerprint (request 100))
      ([] ++ verification_of clean fingerprint (request 100) ∷ [])
      (execute_optimization_cycle clean fingerprint (request 100) (tables none))
execute_optimization_cycle_settles_example =
    execute_optimization_cycle_settles clean fingerprint (request 100) (tables none) live
      (eligible 100) (omega arith)

execute_optimization_cycle_strands_example :
    let (result, s') = execute_optimization_cycle clean fingerprint (request 0) (tables none) in
    (result ≡ raise no_baseline_requests)
    × (s'.plans "plan-1" ≡ some (canary_plan (request 0)))
    × ((canary_plan (request 0)).canary_status ≡ canary_active)
    × (s'.verification.records ≡ [])
execute_optimization_cycle_strands_example =
    execute_optimization_cycle_strands clean fingerprint (request 0) (tables none) live (eligible 0)
      refl
