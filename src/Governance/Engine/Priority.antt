-- ===== src/Governance/Engine/Priority.antt =====
-- The decision is the most restrictive one among the candidates.
use mathlib.Core.List.{Memᴰ}
use mathlib.Core.List.Memᴰ.{head, tail}
use burnlens.Prelude.{
  ◌≤◌, ◌≡◌, refl, ◌⊎◌, inl, inr, String, none, some, List, [], ◌∷◌, leb, arith, Bool-cases,
}
use burnlens.Prelude.Lists.{All}
use burnlens.Float.{Float}
use burnlens.Governance.Models.{EnforcementMode, PolicyDecision, allow, PolicyRule}
use burnlens.Governance.Storage.{get_active_rules}
use burnlens.Governance.Engine.{
  TextFunctions, Action, Candidate, candidates, sort_priority, insert_sorted, sort, Outcome,
  first_candidate, outcome_of,
}

module _ {W : Type 0} where
  -- No candidate comes before this decision.
  abbrev pub Leads : PolicyDecision → List (Candidate W) → Type 0
  Leads decision = All (λ d. sort_priority decision ≤ sort_priority d.decision)

  -- The head of the list is a candidate that leads.
  abbrev IsFirst : List (Candidate W) → List (Candidate W) → Type 0
  IsFirst cs [] = cs ≡ []
  IsFirst cs (c ∷ _) = Memᴰ c cs × Leads c.decision cs

  Leads-trans :
      (a b : PolicyDecision) (cs : List (Candidate W))
      → sort_priority a ≤ sort_priority b
      → Leads b cs
      → Leads a cs
  Leads-trans a b [] h l = tt
  Leads-trans a b (c ∷ cs) h l = (omega (arith, l.0), Leads-trans a b cs h l.1)

  insert_sorted-IsFirst :
      (c : Candidate W) (cs sorted : List (Candidate W))
      → IsFirst cs sorted
      → IsFirst (c ∷ cs) (insert_sorted c sorted)
  unfolding insert_sorted
  insert_sorted-IsFirst c cs [] h = (head refl, (omega arith, rw h tt))
  insert_sorted-IsFirst c cs (d ∷ ds) h =
      elim (Bool-cases (leb (sort_priority c.decision) (sort_priority d.decision))) [
        | inl e ↦
            rw e (head refl, (omega arith, Leads-trans c.decision d.decision cs (ground arith) h.1))
        | inr e ↦ rw e (tail h.0, (ground arith, h.1))
      ]

  sort-IsFirst : (cs : List (Candidate W)) → IsFirst cs (sort cs)
  unfolding sort
  sort-IsFirst [] = refl
  sort-IsFirst (c ∷ cs) = insert_sorted-IsFirst c cs (sort cs) (sort-IsFirst cs)

  -- What an outcome says of the candidates.
  abbrev pub Decides : List (Candidate W) → Outcome W → Type 0
  Decides cs o =
      ((cs ≡ []) × (o.decision ≡ allow) × (o.rule_id ≡ none))
      ⊎ ((c : Candidate W) × Memᴰ c cs
          × (o.rule_id ≡ some c.rule.policy_id)
          × (o.decision ≡ c.decision)
          × (o.reason ≡ c.reason)
          × Leads c.decision cs)

  first_candidate-Decides :
      (cs sorted : List (Candidate W)) → IsFirst cs sorted → Decides cs (first_candidate sorted)
  unfolding first_candidate
  first_candidate-Decides cs [] h = inl (h, refl, refl)
  first_candidate-Decides cs (c ∷ _) h = inr (c, h.0, refl, refl, refl, h.1)

module _ {W : Type 0} ⦃f : Float W⦄ (text : TextFunctions)
    (by_version : List (PolicyRule W) → List (PolicyRule W)) (mode : EnforcementMode) where
  pub outcome_of-Decides :
      (workspace : String) (action : Action W) (rules : List (PolicyRule W))
      → Decides
          (candidates text action (get_active_rules by_version workspace rules))
          (outcome_of text by_version mode workspace action rules)
  unfolding outcome_of
  outcome_of-Decides workspace action rules = first_candidate-Decides _ _ (sort-IsFirst _)
