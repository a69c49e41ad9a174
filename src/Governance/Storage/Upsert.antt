-- ===== src/Governance/Storage/Upsert.antt =====
-- Saving a rule: an upsert that raises the version.
use burnlens.Prelude.{
  ◌≡◌, refl, inl, inr, String, Option, none, some, List, [], ◌∷◌, ◌==◌, eq_iff, arith, Bool-cases,
  ==_false_symm, if◌then◌else◌,
}
use burnlens.Governance.Models.{PolicyRule}
use burnlens.Governance.Storage.{update_rule, save_policy_rule}

module _ {W : Type 0} where
  -- the row with an id
  abbrev pub find_rule : String → List (PolicyRule W) → Option (PolicyRule W)
  find_rule id [] = none
  find_rule id (r ∷ rules) =
      let rest = find_rule id rules in if r.policy_id == id then some r else rest

  -- what is stored for a rule over the row that was there
  abbrev pub saved : PolicyRule W → Option (PolicyRule W) → PolicyRule W
  saved rule none = rule
  saved rule (some old) = update_rule old rule

  -- After a save the rule's id is stored as given if it was new, and otherwise with the version
  -- after that of the row it replaces and that row's creation instant; every other id is as before.
  pub find_rule-save_policy_rule :
      (rule : PolicyRule W) (id : String) (rules : List (PolicyRule W))
      → find_rule id (save_policy_rule rule rules) ≡ (
          if rule.policy_id == id
          then some (saved rule (find_rule rule.policy_id rules))
          else find_rule id rules)
  unfolding save_policy_rule update_rule
  find_rule-save_policy_rule rule id [] = refl
  find_rule-save_policy_rule rule id (r ∷ rules) =
      elim (Bool-cases (r.policy_id == rule.policy_id)) [
        | inl same ↦ rw same (rw ((eq_iff r.policy_id rule.policy_id).0 same) (ground arith))
        | inr other ↦ rw other (elim (Bool-cases (r.policy_id == id)) [
          | inl here ↦ rw here (
              rw (← (eq_iff r.policy_id id).0 here)
                (rw (==_false_symm r.policy_id rule.policy_id other)))
          | inr there ↦ rw there (find_rule-save_policy_rule rule id rules)
        ])
      ]
