-- ===== src/Governance/Tests.antt =====
-- The theorems on governance at work: the rules that the program ships.
use burnlens.Prelude.{ℕ, ◌≡◌, refl, ◌↔◌, true, none, some, List, [], ◌∷◌, ◌++◌, ◌==◌}
use burnlens.Float.Micro.{micro}
use burnlens.Governance.Models.{
  cost_exceeds, PolicyRule, high, deny, require_approval, enforced, denied,
}
use burnlens.Governance.Storage.{default_baseline_policies, get_active_rules}
use burnlens.Governance.Engine.{
  TextFunctions, Action, Candidate, candidates, evaluation, evaluate_action,
}
use burnlens.Governance.Engine.Effects.{SomeDecision, enforced_denies_iff}
use burnlens.Governance.Engine.Tenants.{evaluate_action_isolated}

abbrev text : TextFunctions
text = record { lower = λ s. s; fnmatch = λ s p. s == p }

abbrev by_version : List (PolicyRule ℕ) → List (PolicyRule ℕ)
by_version rules = rules

abbrev rules : List (PolicyRule ℕ)
rules = default_baseline_policies 100

abbrev merge : Action ℕ
merge = record {
  agent_id = "coder";
  action_type = "merge_pr";
  target = "feature/x";
  task_id = none;
  run_id = none;
  cost_usd = 12000000;
  context_metadata = [];
}

-- a rule of another workspace, with a cost limit of 5 dollars
abbrev foreign_rule : PolicyRule ℕ
foreign_rule = record {
  policy_id = "pol-1";
  name = "Deny dear merges";
  workspace_id = "other";
  action_type = "merge_pr";
  risk_level = high;
  decision_if_matched = deny;
  condition_expression = "true";
  max_cost_usd = some 5000000;
  target_pattern = "*";
  version = 1;
  is_active = true;
  created_at = 100;
  updated_at = 100;
}

enforced_denies_iff_example :
    ((evaluation text by_version enforced "e1" 200 "acme" merge rules).effective_action_taken
      ≡ denied)
    ↔ SomeDecision
        (λ d. d ≡ deny)
        (candidates text merge (get_active_rules by_version "acme" rules))
enforced_denies_iff_example = enforced_denies_iff text by_version "e1" 200 "acme" merge rules

abbrev dear : Candidate ℕ
dear = record {
  rule = foreign_rule;
  decision = require_approval;
  reason = cost_exceeds 12000000 5000000;
}

evaluate_action_isolated_example :
    evaluate_action text by_version enforced "e1" 200 "acme" merge ([] ++ foreign_rule ∷ rules) []
    ≡ evaluate_action text by_version enforced "e1" 200 "acme" merge ([] ++ rules) []
evaluate_action_isolated_example =
    evaluate_action_isolated "acme" foreign_rule refl refl text by_version enforced "e1" 200 merge
      [] rules []
