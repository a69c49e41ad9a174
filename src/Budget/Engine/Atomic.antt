-- ===== src/Budget/Engine/Atomic.antt =====
-- A request that is not allowed leaves every counter as it was, and an unpriced model cannot slip
-- past a policy.
use burnlens.Prelude.{
  ℕ, ◌≡◌, ◌≢◌, refl, inl, inr, String, Bool, true, false, ◌&&◌, not, Option, none, some, List, [],
  ◌∷◌, Bool-cases, Option-cases, if◌then◌else◌,
}
use burnlens.Float.{Float, nought}
use burnlens.Json.{Json}
use burnlens.Cost.Pricing.{PricingFiles, Registry}
use burnlens.Cost.Calculator.{is_model_priced}
use burnlens.Cost.Calculator.Unpriced.{calculate_cost_unpriced}
use burnlens.Budget.Estimate.{estimate_request_tokens}
use burnlens.Budget.Policy.{BudgetPolicy, DateTime, RequestContext}
use burnlens.Budget.Engine.{
  Counters, Matched, Config, Check, within, over, check_policies, Reservation, allowed, violated,
  unpriced, commit_or_roll_back, reserve, decide, estimate_cost, matching_policies,
  check_and_reserve,
}

module _ {W : Type 0} ⦃f : Float W⦄ (initial : BudgetPolicy W → ℕ → W) where
  -- What the answer says of the counters.
  abbrev pub Keeps : Bool → Bool → Counters W → Reservation W × Counters W → Type 0
  Keeps block priced rows (allowed c [], t) = t ≡ rows
  Keeps block priced rows (allowed c (m ∷ ms), t) = f.le c nought ≡ false
  Keeps block priced rows (violated p c, t) = (t ≡ rows) × (f.le c nought ≡ false)
  Keeps block priced rows (unpriced _, t) = (t ≡ rows) × (block ≡ true) × (priced ≡ false)

  reserve-Keeps :
      (block priced : Bool) (cost : W) (m : Matched W) (ms : List (Matched W)) (rows : Counters W)
      → f.le cost nought ≡ false
      → Keeps block priced rows (reserve initial cost (m ∷ ms) rows)
  unfolding reserve
  reserve-Keeps block priced cost m ms rows h = settle (check_policies initial cost (m ∷ ms) rows)
    where
      settle :
          (c : Check W) → Keeps block priced rows (commit_or_roll_back initial cost (m ∷ ms) rows c)
      settle (within t) = h
      settle (over p) = (refl, h)

  decide-Keeps :
      (block priced : Bool) (model : String) (cost : W) (ms : List (Matched W)) (rows : Counters W)
      → Keeps block priced rows (decide initial block priced model cost ms rows)
  unfolding decide
  decide-Keeps block priced model cost [] rows = refl
  decide-Keeps block priced model cost (m ∷ ms) rows = elim (Bool-cases (f.le cost nought)) [
    | inr e ↦ rw e (reserve-Keeps block priced cost m ms rows e)
    | inl e ↦ rw e (free block priced)
  ]
    where
      free :
          (block priced : Bool)
          → Keeps block priced rows
              (if block && not priced then (unpriced model, rows) else (allowed nought [], rows))
      free true true = refl
      free true false = (refl, refl, refl)
      free false priced = refl

module _ {W : Type 0} ⦃f : Float W⦄ (registry : Registry) (files : PricingFiles W) (today : ℕ)
    (str_len : Json → ℕ) (initial : BudgetPolicy W → ℕ → W) (config : Config W)
    (provider model : String) (body : Option Json) (context : RequestContext) (now : DateTime)
    (rows : Counters W) where
  abbrev pub KeepsOrFails : Bool → Option (Reservation W) × Counters W → Type 0
  KeepsOrFails priced (none, t) = t ≡ rows
  KeepsOrFails priced (some r, t) = Keeps initial config.block_unpriced_models priced rows (r, t)

  -- An answer other than a reservation with at least one policy leaves every counter as it was. A
  -- reservation, and a refusal by a policy, are made only for an estimate above zero, and a
  -- refusal as unpriced only for a model without a price under the setting that asks for it.
  pub check_and_reserve-Keeps : KeepsOrFails (is_model_priced registry files today provider model) (
      check_and_reserve registry files today str_len initial config provider model body context now
        rows)
  unfolding check_and_reserve
  check_and_reserve-Keeps =
      elim (Option-cases
        (estimate_cost registry files today str_len initial config provider model body)) [
          | inl e ↦ rw (e, check_and_reserve) refl
          | inr (cost, e) ↦
              rw (e, check_and_reserve)
                (decide-Keeps initial config.block_unpriced_models
                  (is_model_priced registry files today provider model) model cost
                  (matching_policies config.budget_policies model context now) rows)
        ]

  estimate_cost_unpriced :
      is_model_priced registry files today provider model ≡ false
      → estimate_request_tokens str_len body ≢ none
      → estimate_cost registry files today str_len initial config provider model body ≡ some nought
  unfolding estimate_cost
  estimate_cost_unpriced price estimate =
      elim (Option-cases (estimate_request_tokens str_len body)) [
        | inl e ↦ absurd (estimate e)
        | inr (tokens, e) ↦
            rw (estimate_cost, e)
              (rw (calculate_cost_unpriced registry files today provider model _ [] price))
      ]

  -- Where the setting asks for it, a request that some policy applies to, for a model without a
  -- price and with a body whose tokens can be estimated, is refused as unpriced.
  pub unpriced_refused :
      f.le nought nought ≡ true
      → config.block_unpriced_models ≡ true
      → is_model_priced registry files today provider model ≡ false
      → matching_policies config.budget_policies model context now ≢ []
      → estimate_request_tokens str_len body ≢ none
      → check_and_reserve registry files today str_len initial config provider model body context
          now rows
        ≡ (some (unpriced model), rows)
  unfolding check_and_reserve
  unpriced_refused zero block price matched estimate =
      rw (estimate_cost_unpriced price estimate, check_and_reserve)
        (rw (price, block)
          (refused (matching_policies config.budget_policies model context now) matched))
    where
      refused :
          (ms : List (Matched W))
          → ms ≢ []
          → ◌≡◌ {A = Option (Reservation W) × Counters W}
              (
                some (decide initial true false model nought ms rows).0,
                (decide initial true false model nought ms rows).1,
              )
              (some (unpriced model), rows)
      refused [] h = absurd (h refl)
      refused (m ∷ ms) h = unfold decide in rw zero
