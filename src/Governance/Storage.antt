-- ===== src/Governance/Storage.antt =====
-- `PolicyStorage` of burnlens/governance/engine.py. The table `policy_rules` is the list of its
-- rows, one for each `policy_id`. The order of rows with one version in `ORDER BY version DESC` is
-- SQLite's, so the sort is a parameter.
pub mod Upsert
use burnlens.Prelude.{
  ℕ, ◌+◌, String, Bool, true, false, ◌&&◌, ◌||◌, Option, none, some, List, [], ◌∷◌, ◌++◌, ◌==◌,
  if◌then◌else◌,
}
use burnlens.Prelude.Lists.{filter}
use burnlens.Float.{Float}
use burnlens.Governance.Models.{
  PolicyRule, PolicyDecision, allow, deny, require_approval, RiskClassification, low, medium, high,
  critical,
}

module _ {W : Type 0} where
  baseline :
      String
      → String
      → String
      → RiskClassification
      → PolicyDecision
      → String
      → Option W
      → ℕ
      → PolicyRule W
  baseline id name action risk decision condition max_cost now = record {
    policy_id = id;
    name = name;
    workspace_id = "*";
    action_type = action;
    risk_level = risk;
    decision_if_matched = decision;
    condition_expression = condition;
    max_cost_usd = max_cost;
    target_pattern = "*";
    version = 1;
    is_active = true;
    created_at = now;
    updated_at = now;
  }

  -- the rule of `DEFAULT_BASELINE_POLICIES` for merges
  unfoldable pub merge_rule : ℕ → PolicyRule W
  unfolding baseline
  merge_rule =
      baseline "pol-default-merge-pr" "Require Approval for Main/Prod PR Merges" "merge_pr" high
        require_approval "target_branch in ['main', 'master', 'production']" none

  -- the rule for changes of permissions
  unfoldable pub iam_rule : ℕ → PolicyRule W
  unfolding baseline
  iam_rule =
      baseline "pol-default-iam" "Deny IAM Modification" "change_iam" critical deny "true" none

  -- `DEFAULT_BASELINE_POLICIES`, made at the instant given
  unfoldable pub default_baseline_policies : ⦃f : Float W⦄ → ℕ → List (PolicyRule W)
  unfolding baseline merge_rule iam_rule
  default_baseline_policies ⦃f⦄ now =
      baseline "pol-default-read" "Allow Repository Reads" "read_repository" low allow "true" none
        now
      ∷ baseline "pol-default-branch" "Allow Branch Creation" "create_branch" low allow "true" none
          now
      ∷ baseline "pol-default-open-pr" "Allow Open Pull Request" "open_pr" low allow "true" none now
      ∷ merge_rule now
      ∷ iam_rule now
      ∷ baseline "pol-default-budget-cap" "Require Approval If Task Cost > $10" "*" medium
          require_approval "cost > 10.0" (some (f.lit 100 1)) now
      ∷ []

  -- the seeding of `init_governance_schema`
  unfoldable pub init_governance_schema :
      ⦃f : Float W⦄ → ℕ → List (PolicyRule W) → List (PolicyRule W)
  init_governance_schema now [] = default_baseline_policies now
  init_governance_schema now (r ∷ rules) = r ∷ rules

  -- `ON CONFLICT(policy_id) DO UPDATE`
  unfoldable pub update_rule : PolicyRule W → PolicyRule W → PolicyRule W
  update_rule old rule = record rule { version = old.version + 1; created_at = old.created_at }

  -- `save_policy_rule`
  unfoldable pub save_policy_rule : PolicyRule W → List (PolicyRule W) → List (PolicyRule W)
  unfolding update_rule
  save_policy_rule rule [] = rule ∷ []
  save_policy_rule rule (r ∷ rules) =
      if r.policy_id == rule.policy_id
      then update_rule r rule ∷ rules
      else r ∷ save_policy_rule rule rules

  -- the `WHERE` clause of `get_active_rules`
  unfoldable pub is_visible : String → PolicyRule W → Bool
  is_visible workspace r =
      r.is_active
      && (r.workspace_id == workspace
          || (r.workspace_id == "*" || (r.workspace_id == "default" && workspace == "default")))

  unfoldable pub get_active_rules :
      (List (PolicyRule W) → List (PolicyRule W))
      → String
      → List (PolicyRule W)
      → List (PolicyRule W)
  get_active_rules by_version workspace rules = by_version (filter (is_visible workspace) rules)
