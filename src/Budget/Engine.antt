-- ===== src/Budget/Engine.antt =====
-- `BudgetEngine` of burnlens/budget_engine.py. A handler that returns without a commit leaves the
-- table as it was. What `_calculate_initial_spend` returns (`Budget.Policy.initial_spend` on the request log) is the argument `initial`; whether the
-- model has a price, and the estimated cost, are those of `Cost.Calculator`.
pub mod Reserve
pub mod Atomic
pub mod Within
pub mod Runs
pub mod Reconcile
use mathlib.Core.Option
use burnlens.Prelude.{
  ℕ, String, Bool, true, false, ◌&&◌, not, Option, none, some, List, [], ◌∷◌, map, ◌==◌, ◌==ℕ◌,
  or_else, if◌then◌else◌,
}
use burnlens.Prelude.Lists.{filter}
use burnlens.Float.{Float, nought}
use burnlens.Json.{Json}
use burnlens.Cost.Pricing.{PricingFiles, Registry}
use burnlens.Cost.Calculator.{TokenUsage, calculate_cost, is_model_priced}
use burnlens.Budget.Estimate.{estimate_request_tokens}
use burnlens.Budget.Policy.{BudgetPolicy, DateTime, RequestContext, period_start, matches_policy}

-- The rows of `budget_counters` by their primary key, the policy's name and the period's start.
abbrev pub Counters : Type 0 → Type 0
Counters W = String → ℕ → Option W

-- A matched policy and the start of its period.
abbrev pub Matched : Type 0 → Type 0
Matched W = BudgetPolicy W × ℕ

abbrev pub is_key : String → ℕ → String → ℕ → Bool
is_key name start n s = name == n && start ==ℕ s

module _ {W : Type 0} where
  -- `INSERT OR IGNORE`
  unfoldable pub insert_row : String → ℕ → W → Counters W → Counters W
  insert_row name start spend rows n s =
      if is_key name start n s then some (or_else (rows n s) spend) else rows n s

  -- the `matching_policies` loop
  unfoldable pub matching_policies :
      List (BudgetPolicy W) → String → RequestContext → DateTime → List (Matched W)
  matching_policies policies model context now =
      map (λ p. (p, period_start p.period now))
        (filter (λ p. matches_policy p model context) policies)

module _ {W : Type 0} ⦃f : Float W⦄ where
  -- `UPDATE budget_counters SET current_spend = current_spend + ?`
  unfoldable pub add_spend : W → String → ℕ → Counters W → Counters W
  add_spend amount name start rows n s =
      if is_key name start n s then Option.map (λ v. f.add v amount) (rows n s) else rows n s

  -- the second loop, and that of `reconcile`
  unfoldable pub add_all : W → List (Matched W) → Counters W → Counters W
  add_all amount [] rows = rows
  add_all amount ((policy, start) ∷ matched) rows =
      add_all amount matched (add_spend amount policy.name start rows)

pub data Check (W : Type 0) : Type 0 where
  within : Counters W → Check W
  over : BudgetPolicy W → Check W

module _ {W : Type 0} ⦃f : Float W⦄ (initial : BudgetPolicy W → ℕ → W) where
  -- the counter's value, or the spend that it is made with
  unfoldable pub spend_of : Matched W → Counters W → W
  spend_of (policy, start) rows = or_else (rows policy.name start) (initial policy start)

  unfoldable pub ensure_row : Matched W → Counters W → Counters W
  ensure_row (policy, start) rows = insert_row policy.name start (initial policy start) rows

  -- the first loop: it makes missing counters, and stops at the first policy that is exceeded
  unfoldable pub check_policies : W → List (Matched W) → Counters W → Check W
  check_policies cost [] rows = within rows
  check_policies cost ((policy, start) ∷ matched) rows =
      let rest = check_policies cost matched (ensure_row (policy, start) rows) in
      if f.lt policy.limit_usd (f.add (spend_of (policy, start) rows) cost)
      then over policy
      else rest

-- what `check_and_reserve` returns
pub data Reservation (W : Type 0) : Type 0 where
  allowed : W → List (Matched W) → Reservation W
  violated : BudgetPolicy W → W → Reservation W
  unpriced : String → Reservation W

module _ {W : Type 0} ⦃f : Float W⦄ (initial : BudgetPolicy W → ℕ → W) where
  -- the block under the lock
  commit_or_roll_back : W → List (Matched W) → Counters W → Check W → Reservation W × Counters W
  commit_or_roll_back cost matched rows (over policy) = (violated policy cost, rows)
  commit_or_roll_back cost matched rows (within rows') =
      (allowed cost matched, add_all cost matched rows')

  unfoldable pub reserve : W → List (Matched W) → Counters W → Reservation W × Counters W
  unfolding commit_or_roll_back
  reserve cost matched rows =
      commit_or_roll_back cost matched rows (check_policies initial cost matched rows)

  -- `check_and_reserve` from the estimate on; `priced` is `is_model_priced(provider, model)` and
  -- `block` the setting `block_unpriced_models`
  unfoldable pub decide :
      Bool → Bool → String → W → List (Matched W) → Counters W → Reservation W × Counters W
  decide block priced model cost [] rows = (allowed cost [], rows)
  decide block priced model cost (m ∷ matched) rows =
      if f.le cost nought
      then if block && not priced then (unpriced model, rows) else (allowed nought [], rows)
      else reserve cost (m ∷ matched) rows

-- the configuration that the engine reads
pub record Config (W : Type 0) : Type 0 where
  pub budget_policies : List (BudgetPolicy W)
  pub block_unpriced_models : Bool

module _ {W : Type 0} ⦃f : Float W⦄ (registry : Registry) (files : PricingFiles W) (today : ℕ)
    (str_len : Json → ℕ) (initial : BudgetPolicy W → ℕ → W) (config : Config W) where
  -- `estimate_cost`
  unfoldable pub estimate_cost : String → String → Option Json → Option W
  estimate_cost provider model body = elim (estimate_request_tokens str_len body) [
    | none ↦ none
    | some (n, m) ↦
        some
          (calculate_cost registry files today provider model
            (record {
              input_tokens = n;
              output_tokens = m;
              reasoning_tokens = 0;
              cache_read_tokens = 0;
              cache_write_tokens = 0;
              audio_input_tokens = 0;
              audio_output_tokens = 0;
              units = [];
            })
            []).0
  ]

  -- `check_and_reserve`; `none` is an exception of the estimate
  unfoldable pub check_and_reserve :
      String
      → String
      → Option Json
      → RequestContext
      → DateTime
      → Counters W
      → Option (Reservation W) × Counters W
  check_and_reserve provider model body context now rows =
      elim (estimate_cost provider model body) [
        | none ↦ (none, rows)
        | some cost ↦
            let (reservation, rows') =
              decide initial config.block_unpriced_models
                (is_model_priced registry files today provider model) model cost
                (matching_policies config.budget_policies model context now) rows in
            (some reservation, rows')
      ]

module _ {W : Type 0} ⦃f : Float W⦄ where
  -- `reconcile`
  unfoldable pub reconcile : W → Reservation W → Counters W → Counters W
  reconcile actual (allowed estimated []) rows = rows
  reconcile actual (allowed estimated (m ∷ matched)) rows =
      if f.le estimated nought then rows else add_all (f.sub actual estimated) (m ∷ matched) rows
  reconcile actual _ rows = rows
