-- ===== src/Governance/Engine/Effects.antt =====
-- What the modes make of the candidates, and which candidates the rules give.
use mathlib.Core.List.{Memᴰ}
use burnlens.Prelude.{
  ℕ, ◌≤◌, ◌≡◌, refl, ◌⊎◌, ◌↔◌, inl, inr, String, Bool, true, false, some, List, arith, eq_refl, sym,
  or_else,
}
use burnlens.Prelude.Lists.{All-mem, mem-nil}
use mathlib.Core.Path.{subst}
use burnlens.Prelude.Dict.{lookup}
use burnlens.Float.{Float}
use burnlens.Governance.Models.{
  approval_required, enforced, PolicyDecision, allow, deny, require_approval, PolicyRule, denied,
  blocked_pending_approval,
}
use burnlens.Governance.Storage.{get_active_rules, merge_rule}
use burnlens.Governance.Engine.{
  TextFunctions, Action, Candidate, applies, is_protected, by_condition, candidate_of, candidates,
  sort_priority, Outcome, outcome_of, effective_action, evaluation,
}
use burnlens.Governance.Engine.Priority.{Decides, outcome_of-Decides}

module _ {W : Type 0} where
  -- Some candidate has a decision of the kind.
  abbrev pub SomeDecision : (PolicyDecision → Type 0) → List (Candidate W) → Type 0
  SomeDecision P cs = (c : Candidate W) × Memᴰ c cs × P c.decision

  -- The outcome's decision has a priority at most `n` exactly when a candidate's has.
  leads_iff :
      (P : PolicyDecision → Type 0) (cs : List (Candidate W)) (o : Outcome W)
      → ¬ (P allow)
      → ((a b : PolicyDecision) → P b → sort_priority a ≤ sort_priority b → P a)
      → Decides cs o
      → P o.decision ↔ SomeDecision P cs
  leads_iff P cs o not_allow down (inl (e, a, _)) =
      (λ h. absurd (not_allow (subst P a h)), λ (c, m, h). absurd (mem-nil cs e m))
  leads_iff P cs o not_allow down (inr (c, m, _, same, _, leads)) = (
    λ h. (c, m, subst P same h),
    λ (d, k, h). subst P (sym same) (
        down c.decision d.decision h (
          All-mem (λ (x : Candidate W). sort_priority c.decision ≤ sort_priority x.decision) cs
            leads k)),
  )

deny_down : (a b : PolicyDecision) → b ≡ deny → sort_priority a ≤ sort_priority b → a ≡ deny
unfolding sort_priority
deny_down a b e h = ground arith

restrictive_down :
    (a b : PolicyDecision)
    → (b ≡ deny) ⊎ (b ≡ require_approval)
    → sort_priority a ≤ sort_priority b
    → (a ≡ deny) ⊎ (a ≡ require_approval)
unfolding sort_priority
restrictive_down a b e h = ground arith

denied_iff : (d : PolicyDecision) → (effective_action enforced d ≡ denied) ↔ (d ≡ deny)
unfolding effective_action
denied_iff d = (λ h. ground arith, λ h. ground arith)

blocked_iff :
    (d : PolicyDecision)
    → (effective_action approval_required d ≡ blocked_pending_approval)
      ↔ ((d ≡ deny) ⊎ (d ≡ require_approval))
unfolding effective_action
blocked_iff d = (λ h. ground arith, λ h. ground arith)

module _ {W : Type 0} ⦃f : Float W⦄ (text : TextFunctions)
    (by_version : List (PolicyRule W) → List (PolicyRule W)) (eval_id : String) (now : ℕ)
    (workspace : String) (action : Action W) (rules : List (PolicyRule W)) where
  abbrev pub found : List (Candidate W)
  found = candidates text action (get_active_rules by_version workspace rules)

  -- In the enforced mode an action is denied exactly when a candidate of the active rules denies it.
  pub enforced_denies_iff :
      ((evaluation text by_version enforced eval_id now workspace action
          rules).effective_action_taken
        ≡ denied)
      ↔ SomeDecision (λ d. d ≡ deny) found
  unfolding evaluation
  enforced_denies_iff =
      let o = outcome_of text by_version enforced workspace action rules in
      let all =
        leads_iff (λ d. d ≡ deny) found o (λ e. cc) deny_down
          (outcome_of-Decides text by_version enforced workspace action rules) in
      (λ h. all.0 ((denied_iff o.decision).0 h), λ h. (denied_iff o.decision).1 (all.1 h))

  -- In the mode that asks for approval an action waits for one exactly when a candidate of the
  -- active rules denies it or requires approval.
  pub approval_blocks_iff :
      ((evaluation text by_version approval_required eval_id now workspace action
          rules).effective_action_taken
        ≡ blocked_pending_approval)
      ↔ SomeDecision (λ d. (d ≡ deny) ⊎ (d ≡ require_approval)) found
  unfolding evaluation
  approval_blocks_iff =
      let o = outcome_of text by_version approval_required workspace action rules in
      let all =
        leads_iff (λ d. (d ≡ deny) ⊎ (d ≡ require_approval)) found o neither restrictive_down
          (outcome_of-Decides text by_version approval_required workspace action rules) in
      (λ h. all.0 ((blocked_iff o.decision).0 h), λ h. (blocked_iff o.decision).1 (all.1 h))
    where
      neither : ¬ ((allow ≡ deny) ⊎ (allow ≡ require_approval))
      neither (inl e) = cc
      neither (inr e) = cc

module _ {W : Type 0} ⦃f : Float W⦄ (text : TextFunctions) where
  -- The default rule on merges, whose name and condition speak of protected branches, makes a
  -- candidate that requires approval of every merge, whatever its branch.
  pub merge_rule_requires_approval :
      (action : Action W) (now : ℕ)
      → text.lower "merge_pr" ≡ text.lower action.action_type
      → (c : Candidate W) × (candidate_of text action (merge_rule now) ≡ some c)
        × (c.decision ≡ require_approval)
  unfolding candidate_of applies merge_rule
  merge_rule_requires_approval action now same = (
    by_condition text action (merge_rule now),
    rw same (rw (eq_refl (text.lower action.action_type))),
    requires (is_protected (or_else (lookup "target_branch" action.context_metadata) action.target))
        refl,
  )
    where
      requires :
          (b : Bool)
          → is_protected (or_else (lookup "target_branch" action.context_metadata) action.target)
            ≡ b
          → (by_condition text action (merge_rule now)).decision ≡ require_approval
      requires true e = rw e
      requires false e = rw e

  -- A rule with a cost limit never makes a candidate that denies, whatever its own decision.
  pub cost_rule_decision :
      (action : Action W) (rule : PolicyRule W) (limit : W) {c : Candidate W}
      → rule.max_cost_usd ≡ some limit
      → candidate_of text action rule ≡ some c
      → (c.decision ≡ require_approval) × (f.lt limit action.cost_usd ≡ true)
  unfolding candidate_of
  cost_rule_decision action rule limit capped made = ground arith
