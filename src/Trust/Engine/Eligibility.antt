-- ===== src/Trust/Engine/Eligibility.antt =====
-- When an action may run without a human.
use burnlens.Prelude.{
  ◌≡◌, refl, ◌↔◌, String, Bool, true, false, not, none, some, [], ◌∷◌, ◌++◌, arith, eq_refl,
  not_true, if◌then◌else◌,
}
use burnlens.Prelude.Lists.{contains}
use burnlens.Float.{Float}
use burnlens.Trust.Calculator.{
  AutonomyLevel, restricted, earned_autonomy, calculate_score, level_of, is_sparse,
}
use burnlens.Trust.Engine.{
  high_risk_actions, is_granted, is_earned, high_risk, irreversible, too_costly, not_earned,
  granted, record_audit, TrustStorage, ActionRequest, save_profile, no_evidence,
  evaluate_agent_trust, load_profile, reason_for, check_of, check_autonomy_eligibility,
}

ladder :
    (risky reversible dear : Bool) (level : AutonomyLevel)
    → is_granted (
        if risky
        then high_risk
        else if not reversible
        then irreversible
        else if dear
        then too_costly
        else if not (is_earned level)
        then not_earned
        else granted)
      ≡ true
    → (risky ≡ false) × (reversible ≡ true) × (dear ≡ false) × (level ≡ earned_autonomy)
ladder risky reversible dear level h = ground arith

no_evidence_restricted :
    (W : Type 0) ⦃f : Float W⦄ (agent workspace : String)
    → (calculate_score {W = W} agent workspace no_evidence).autonomy_level ≡ restricted
unfolding calculate_score level_of is_sparse
no_evidence_restricted W agent workspace = refl

module _ {W : Type 0} ⦃f : Float W⦄ (clean : String → String) where
  -- The conditions under which an action may run by itself at a level of autonomy.
  pub record MayRun (a : ActionRequest W) (level : AutonomyLevel) : Type 0 where
    pub low_risk : contains high_risk_actions (clean a.action_type) ≡ false
    pub reversible : a.is_reversible ≡ true
    pub affordable : f.lt a.max_autonomous_spend a.estimated_cost_usd ≡ false
    pub earned : level ≡ earned_autonomy

  granted-of-MayRun :
      (a : ActionRequest W) (level : AutonomyLevel)
      → MayRun a level
      → is_granted (reason_for clean a level) ≡ true
  unfolding reason_for
  granted-of-MayRun a level m = rw (m.low_risk, m.reversible, m.affordable, m.earned)

  MayRun-of-granted :
      (a : ActionRequest W) (level : AutonomyLevel)
      → is_granted (reason_for clean a level) ≡ true
      → MayRun a level
  unfolding reason_for
  MayRun-of-granted a level h =
      let (low, reversible, affordable, earned) =
        ladder (contains high_risk_actions (clean a.action_type)) a.is_reversible
          (f.lt a.max_autonomous_spend a.estimated_cost_usd) level h in
      record { low_risk = low; reversible = reversible; affordable = affordable; earned = earned }

  -- An action may run by itself exactly when it is not of high risk, is reversible, does not cost
  -- more than the limit and the agent's level is earned autonomy; otherwise a human must approve.
  -- Either way the answer is added to the audits.
  pub check_autonomy_eligibility_iff :
      (agent workspace : String) (a : ActionRequest W) (s : TrustStorage W)
      → let (c, s') = check_autonomy_eligibility clean agent workspace a s in
        let p = (load_profile agent workspace s).0 in
        ((c.is_autonomous_eligible ≡ true) ↔ MayRun a p.autonomy_level)
        × (c.requires_human_approval ≡ not c.is_autonomous_eligible)
        × (s'.audits ≡ (load_profile agent workspace s).1.audits ++ c ∷ [])
  unfolding check_autonomy_eligibility check_of record_audit
  check_autonomy_eligibility_iff agent workspace a s =
      let level = (load_profile agent workspace s).0.autonomy_level in
      ((MayRun-of-granted a level, granted-of-MayRun a level), refl, refl)

  -- An agent without a profile never runs an action by itself, and gets a profile at the
  -- restricted level.
  pub new_agent_restricted :
      (agent workspace : String) (a : ActionRequest W) (s : TrustStorage W)
      → s.profiles agent workspace ≡ none
      → let (c, s') = check_autonomy_eligibility clean agent workspace a s in
        (c.is_autonomous_eligible ≡ false)
        × (s'.profiles agent workspace ≡ some (calculate_score agent workspace no_evidence))
        × ((calculate_score {W = W} agent workspace no_evidence).autonomy_level ≡ restricted)
  unfolding check_autonomy_eligibility check_of record_audit load_profile evaluate_agent_trust
      save_profile calculate_score
  new_agent_restricted agent workspace a s new = (
    rw new (not_true _ λ e. not_both (MayRun-of-granted a _ e).earned),
    rw new (rw (eq_refl agent, eq_refl workspace)),
    no_evidence_restricted W agent workspace,
  )
    where
      not_both :
          (calculate_score {W = W} agent workspace no_evidence).autonomy_level ≡ earned_autonomy → ⊥
      not_both e = cc (no_evidence_restricted W agent workspace)
