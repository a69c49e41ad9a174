-- ===== src/Governance/Engine/Tenants.antt =====
-- The rules of one workspace have no effect on the actions of another.
use burnlens.Prelude.{
  ℕ, ◌≡◌, inl, inr, String, false, List, [], ◌∷◌, ◌++◌, arith, ◌==◌, eq_iff, sym, ◌∙◌, Bool-cases,
  not_true, false≢true,
}
use burnlens.Prelude.Lists.{filter}
use burnlens.Float.{Float}
use burnlens.Governance.Models.{EnforcementMode, PolicyRule, PolicyEvaluationRecord}
use burnlens.Governance.Storage.{is_visible, get_active_rules}
use burnlens.Governance.Engine.{TextFunctions, Action, outcome_of, evaluation, evaluate_action}

module _ {W : Type 0} (workspace : String) (r : PolicyRule W)
    (foreign : (r.workspace_id == workspace) ≡ false)
    (bound : (r.workspace_id == "*") ≡ false) where
  hidden : is_visible workspace r ≡ false
  unfolding is_visible
  hidden =
      rw (foreign, bound)
        (elim (Bool-cases (r.workspace_id == "default")) [
          | inl d ↦
              rw
                (
                  d,
                  not_true (workspace == "default") (λ e. clash (
                      (eq_iff r.workspace_id "default").0 d
                      ∙ sym ((eq_iff workspace "default").0 e))),
                )
                (ground arith)
          | inr d ↦ rw d (ground arith)
        ])
    where
      clash : r.workspace_id ≡ workspace → ⊥
      clash e = false≢true (sym foreign ∙ (eq_iff r.workspace_id workspace).1 e)

  filter_hidden :
      (xs ys : List (PolicyRule W))
      → filter (is_visible workspace) (xs ++ r ∷ ys) ≡ filter (is_visible workspace) (xs ++ ys)
  filter_hidden [] ys = rw hidden
  filter_hidden (x ∷ xs) ys = rw (filter_hidden xs ys)

  module _ ⦃f : Float W⦄ (text : TextFunctions)
      (by_version : List (PolicyRule W) → List (PolicyRule W)) (mode : EnforcementMode) where
    -- An evaluation for a workspace is the same, and leaves the same audit trail, with or without a
    -- rule of another workspace that is not the wildcard, wherever it stands in the table.
    pub evaluate_action_isolated :
        (eval_id : String) (now : ℕ) (action : Action W) (xs ys : List (PolicyRule W))
        (audit : List (PolicyEvaluationRecord W))
        → evaluate_action text by_version mode eval_id now workspace action (xs ++ r ∷ ys) audit
          ≡ evaluate_action text by_version mode eval_id now workspace action (xs ++ ys) audit
    unfolding evaluate_action evaluation outcome_of get_active_rules
    evaluate_action_isolated eval_id now action xs ys audit = rw (filter_hidden xs ys)
