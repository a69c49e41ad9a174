-- ===== src/Trust/Engine.antt =====
-- burnlens/trust/engine.py, over the tables of burnlens/trust/storage.py: a profile for each agent
-- and workspace, and the audits of eligibility checks. `str.strip` and `str.lower` are parameters;
-- ids and instants of audits are left out.
pub mod Eligibility
use burnlens.Prelude.{
  ℕ, String, Bool, true, false, not, ◌&&◌, Option, none, some, List, [], ◌∷◌, ◌++◌, ◌==◌,
  if◌then◌else◌,
}
use burnlens.Prelude.Lists.{contains}
use burnlens.Float.{Float, nought}
use burnlens.Trust.Calculator.{
  AutonomyLevel, restricted, standard, earned_autonomy, AgentTrustProfile, Evidence,
  calculate_score,
}

abbrev pub high_risk_actions : List String
high_risk_actions =
    "change_iam" ∷ "modify_security_policy" ∷ "drop_database" ∷ "direct_push_main"
    ∷ "direct_push_master" ∷ "auto_merge_production" ∷ "secret_access" ∷ []

-- the messages of the checks
pub data CheckReason : Type 0 where
  high_risk irreversible too_costly not_earned granted : CheckReason

abbrev pub is_granted : CheckReason → Bool
is_granted granted = true
is_granted _ = false

pub record AutonomyEligibilityCheck (W : Type 0) : Type 0 where
  pub agent_id : String
  pub workspace_id : String
  pub action_type : String
  pub estimated_cost_usd : W
  pub is_autonomous_eligible : Bool
  pub requires_human_approval : Bool
  pub trust_score : W
  pub autonomy_level : AutonomyLevel
  pub reason : CheckReason

pub record TrustStorage (W : Type 0) : Type 0 where
  pub profiles : String → String → Option (AgentTrustProfile W)
  pub audits : List (AutonomyEligibilityCheck W)

abbrev pub is_earned : AutonomyLevel → Bool
is_earned earned_autonomy = true
is_earned _ = false

module _ {W : Type 0} where
  -- `TrustStorage.save_profile`
  unfoldable pub save_profile : AgentTrustProfile W → TrustStorage W → TrustStorage W
  save_profile p s = record s {
    profiles = λ agent workspace.
        if agent == p.agent_id && workspace == p.workspace_id
        then some p
        else s.profiles agent workspace;
  }

  -- `TrustStorage.record_eligibility_audit`
  unfoldable pub record_audit : AutonomyEligibilityCheck W → TrustStorage W → TrustStorage W
  record_audit c s = record s { audits = s.audits ++ c ∷ [] }

pub record ActionRequest (W : Type 0) : Type 0 where
  pub action_type : String
  pub estimated_cost_usd : W
  pub is_reversible : Bool
  pub max_autonomous_spend : W

module _ {W : Type 0} ⦃f : Float W⦄ where
  unfoldable pub evaluate_agent_trust :
      String → String → Evidence W → TrustStorage W → AgentTrustProfile W × TrustStorage W
  evaluate_agent_trust agent workspace e s =
      let p = calculate_score agent workspace e in (p, save_profile p s)

  -- the evidence of an agent without a profile
  abbrev pub no_evidence : Evidence W
  no_evidence = record {
    task_success_rate = nought;
    accepted_outcome_rate = nought;
    rollback_rate = nought;
    policy_violation_rate = nought;
    waste_ratio = nought;
    total_tasks = 0;
    total_spend_usd = nought;
  }

  profile_or_default :
      String
      → String
      → TrustStorage W
      → Option (AgentTrustProfile W)
      → AgentTrustProfile W × TrustStorage W
  profile_or_default agent workspace s (some p) = (p, s)
  profile_or_default agent workspace s none = evaluate_agent_trust agent workspace no_evidence s

  -- the first part of `check_autonomy_eligibility`
  unfoldable pub load_profile :
      String → String → TrustStorage W → AgentTrustProfile W × TrustStorage W
  unfolding profile_or_default
  load_profile agent workspace s = profile_or_default agent workspace s (s.profiles agent workspace)

  module _ (clean : String → String) where
    -- the ladder of the five invariants; `clean` is `strip().lower()`
    unfoldable pub reason_for : ActionRequest W → AutonomyLevel → CheckReason
    reason_for a level =
        if contains high_risk_actions (clean a.action_type)
        then high_risk
        else if not a.is_reversible
        then irreversible
        else if f.lt a.max_autonomous_spend a.estimated_cost_usd
        then too_costly
        else if not (is_earned level)
        then not_earned
        else granted

    unfoldable pub check_of :
        String → String → ActionRequest W → AgentTrustProfile W → AutonomyEligibilityCheck W
    check_of agent workspace a p =
        let reason = reason_for a p.autonomy_level in
        record {
          agent_id = agent;
          workspace_id = workspace;
          action_type = a.action_type;
          estimated_cost_usd = a.estimated_cost_usd;
          is_autonomous_eligible = is_granted reason;
          requires_human_approval = not (is_granted reason);
          trust_score = p.trust_score;
          autonomy_level = p.autonomy_level;
          reason = reason;
        }

    -- `check_autonomy_eligibility`
    unfoldable pub check_autonomy_eligibility :
        String
        → String
        → ActionRequest W
        → TrustStorage W
        → AutonomyEligibilityCheck W × TrustStorage W
    check_autonomy_eligibility agent workspace a s =
        let (p, s') = load_profile agent workspace s in
        let c = check_of agent workspace a p in (c, record_audit c s')
