-- ===== src/Governance/Engine.antt =====
-- `GovernanceEngine.evaluate_action` of burnlens/governance/engine.py. `str.lower` and `fnmatch` are
-- parameters; the id and the instant of an evaluation are arguments.
pub mod Priority
pub mod Effects
pub mod Tenants
use burnlens.Prelude.{
  ℕ, ◌+◌, String, Bool, true, false, not, ◌&&◌, ◌||◌, Option, none, some, List, [], ◌∷◌, ◌++◌, leb,
  ltb, ◌==◌, or_else, if◌then◌else◌,
}
use burnlens.Prelude.Lists.{contains}
use burnlens.Prelude.Dict.{Dict, lookup}
use burnlens.Float.{Float}
use burnlens.Governance.Models.{
  EnforcementMode, observe, shadow, approval_required, enforced, autonomous, PolicyDecision, allow,
  deny, require_approval, budget_exceeded, PolicyRule, Reason, default_allow, cost_exceeds,
  protected_merge, iam_disallowed, matched, EffectiveAction, allowed_by_shadow_mode,
  blocked_pending_approval, proceed, denied, autonomous_execute, PolicyEvaluationRecord,
}
use burnlens.Governance.Storage.{get_active_rules}

-- Python's functions on texts that the engine calls
pub record TextFunctions : Type 0 where
  pub lower : String → String
  pub fnmatch : String → String → Bool

pub record Action (W : Type 0) : Type 0 where
  pub agent_id : String
  pub action_type : String
  pub target : String
  pub task_id : Option String
  pub run_id : Option String
  pub cost_usd : W
  pub context_metadata : Dict String

-- an entry of `candidates`
pub record Candidate (W : Type 0) : Type 0 where
  pub rule : PolicyRule W
  pub decision : PolicyDecision
  pub reason : Reason W

unfoldable pub is_protected : String → Bool
is_protected branch = contains ("main" ∷ "master" ∷ "production" ∷ []) branch

module _ {W : Type 0} ⦃f : Float W⦄ (text : TextFunctions) where
  -- the two tests that skip a rule
  unfoldable pub applies : Action W → PolicyRule W → Bool
  applies action rule =
      (rule.action_type == "*" || text.lower rule.action_type == text.lower action.action_type)
      && (rule.target_pattern == "*" || text.fnmatch action.target rule.target_pattern)

  over_budget : Action W → PolicyRule W → W → Option (Candidate W)
  over_budget action rule max_cost =
      if f.lt max_cost action.cost_usd
      then some (record {
        rule = rule;
        decision = require_approval;
        reason = cost_exceeds action.cost_usd max_cost;
      })
      else none

  by_rule : PolicyRule W → Reason W → Candidate W
  by_rule rule reason = record { rule = rule; decision = rule.decision_if_matched; reason = reason }

  by_condition : Action W → PolicyRule W → Candidate W
  unfolding by_rule
  by_condition action rule =
      let branch = or_else (lookup "target_branch" action.context_metadata) action.target in
      if rule.action_type == "merge_pr" && is_protected branch
      then by_rule rule (protected_merge branch)
      else if rule.action_type == "change_iam"
      then by_rule rule iam_disallowed
      else by_rule rule (matched rule.name rule.policy_id)

  -- the body of the loop over the active rules
  unfoldable pub candidate_of : Action W → PolicyRule W → Option (Candidate W)
  unfolding over_budget by_condition
  candidate_of action rule =
      if applies action rule
      then (elim rule.max_cost_usd [
        | some max_cost ↦ over_budget action rule max_cost
        | none ↦ some (by_condition action rule)
      ])
      else none

  push : Option (Candidate W) → List (Candidate W) → List (Candidate W)
  push none cs = cs
  push (some c) cs = c ∷ cs

  unfoldable pub candidates : Action W → List (PolicyRule W) → List (Candidate W)
  unfolding push
  candidates action [] = []
  candidates action (rule ∷ rules) = push (candidate_of action rule) (candidates action rules)

-- `sort_priority`
unfoldable pub sort_priority : PolicyDecision → ℕ
sort_priority deny = 0
sort_priority require_approval = 1
sort_priority budget_exceeded = 2
sort_priority allow = 3

module _ {W : Type 0} where
  -- `candidates.sort(key=sort_priority)`: a stable sort
  unfoldable pub insert_sorted : Candidate W → List (Candidate W) → List (Candidate W)
  insert_sorted c [] = c ∷ []
  insert_sorted c (d ∷ ds) =
      let rest = d ∷ insert_sorted c ds in
      if leb (sort_priority c.decision) (sort_priority d.decision) then c ∷ d ∷ ds else rest

  unfoldable pub sort : List (Candidate W) → List (Candidate W)
  sort [] = []
  sort (c ∷ cs) = insert_sorted c (sort cs)

-- the `if self.mode in ...` ladder
unfoldable pub effective_action : EnforcementMode → PolicyDecision → EffectiveAction
effective_action observe decision = allowed_by_shadow_mode
effective_action shadow decision = allowed_by_shadow_mode
effective_action approval_required require_approval = blocked_pending_approval
effective_action approval_required deny = blocked_pending_approval
effective_action approval_required _ = proceed
effective_action enforced deny = denied
effective_action enforced _ = proceed
effective_action autonomous decision = autonomous_execute

-- `matched_rule`, `computed_decision` and `reason`
pub record Outcome (W : Type 0) : Type 0 where
  pub rule_id : Option String
  pub decision : PolicyDecision
  pub reason : Reason W

module _ {W : Type 0} where
  unfoldable pub first_candidate : List (Candidate W) → Outcome W
  first_candidate [] = record { rule_id = none; decision = allow; reason = default_allow }
  first_candidate (c ∷ cs) = record {
    rule_id = some c.rule.policy_id;
    decision = c.decision;
    reason = c.reason;
  }

module _ {W : Type 0} ⦃f : Float W⦄ (text : TextFunctions)
    (by_version : List (PolicyRule W) → List (PolicyRule W)) (mode : EnforcementMode) where
  unfoldable pub outcome_of : String → Action W → List (PolicyRule W) → Outcome W
  outcome_of workspace action rules =
      first_candidate (sort (candidates text action (get_active_rules by_version workspace rules)))

  unfoldable pub evaluation :
      String → ℕ → String → Action W → List (PolicyRule W) → PolicyEvaluationRecord W
  evaluation eval_id now workspace action rules =
      let outcome = outcome_of workspace action rules in
      record {
        evaluation_id = eval_id;
        workspace_id = workspace;
        agent_id = action.agent_id;
        task_id = action.task_id;
        run_id = action.run_id;
        action_type = action.action_type;
        target = action.target;
        enforcement_mode = mode;
        decision = outcome.decision;
        effective_action_taken = effective_action mode outcome.decision;
        matched_policy_id = outcome.rule_id;
        reason = outcome.reason;
        cost_usd = action.cost_usd;
        context_metadata = action.context_metadata;
        evaluated_at = now;
      }

  -- `evaluate_action`: the record, and the audit table with it
  unfoldable pub evaluate_action :
      String
      → ℕ
      → String
      → Action W
      → List (PolicyRule W)
      → List (PolicyEvaluationRecord W)
      → PolicyEvaluationRecord W × List (PolicyEvaluationRecord W)
  evaluate_action eval_id now workspace action rules audit =
      let r = evaluation eval_id now workspace action rules in (r, audit ++ r ∷ [])
