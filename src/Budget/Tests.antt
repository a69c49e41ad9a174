-- ===== src/Budget/Tests.antt =====
-- The theorems on budgets at work: a policy of one dollar a day for a team, with 0.4 dollars spent.
use burnlens.Prelude.{
  ℕ, ◌≡◌, ◌≢◌, refl, true, false, Option, none, some, List, [], ◌∷◌, if◌then◌else◌, sym, ◌∙◌, arith,
}
use burnlens.Float.Micro.{micro, micro-HasDifferences}
use burnlens.Json.{Json}
use burnlens.Budget.Estimate.{estimate_request_tokens}
use burnlens.Cost.Pricing.{get_model_pricing, best_prefix, PricingFiles, Registry, Rates, Pricing}
use burnlens.Cost.Calculator.{is_model_priced, resolve_pricing, resolve_vendor}
use burnlens.Budget.Policy.{BudgetPolicy, DateTime, RequestContext, matches_policy, period_start}
use burnlens.Budget.Engine.{
  allowed, check_policies, spend_of, reconcile, matching_policies, Counters, Matched, is_key,
  Config, unpriced, reserve, check_and_reserve,
}
use burnlens.Budget.Engine.Reserve.{Reserves, reserve-Reserves}
use burnlens.Budget.Engine.Atomic.{KeepsOrFails, check_and_reserve-Keeps, unpriced_refused}
use burnlens.Budget.Engine.Reconcile.{settled, reconcile-reserve}
use burnlens.Budget.Engine.Within.{IsWithin, Request}
use burnlens.Budget.Engine.Runs.{here, next, requested, reconciled, Reach-IsWithin}

abbrev policy : BudgetPolicy ℕ
policy = record {
  name = "team-daily";
  scope = "team";
  target = "search";
  limit_usd = 1000000;
  period = "daily";
}

abbrev context : RequestContext
context = record { org_id = none; team = some "search"; app_id = none; customer = none }

abbrev now : DateTime
now = record { ordinal = 739000; day = 12; microsecond_of_day = 0 }

abbrev matched : List (Matched ℕ)
matched = (policy, 739000) ∷ []

abbrev rows : Counters ℕ
rows n s = if is_key "team-daily" 739000 n s then some 400000 else none

abbrev initial : BudgetPolicy ℕ → ℕ → ℕ
initial p s = 0

abbrev str_len : Json → ℕ
str_len v = 0

abbrev config : Config ℕ
config = record { budget_policies = policy ∷ []; block_unpriced_models = true }

abbrev files : PricingFiles ℕ
files = []

abbrev registry : Registry
registry = []

abbrev request : Request
request = record {
  provider = "openai";
  model = "gpt-4o";
  body = none;
  context = context;
  now = now;
}

reserve-Reserves_example :
    Reserves initial 500000 rows matched (reserve initial 500000 matched rows)
reserve-Reserves_example = reserve-Reserves initial 500000 matched rows (tt, tt)

check_and_reserve-Keeps_example :
    KeepsOrFails registry files 1 str_len initial config "openai" "gpt-4o" none context now rows
      (is_model_priced registry files 1 "openai" "gpt-4o")
      (check_and_reserve registry files 1 str_len initial config "openai" "gpt-4o" none context now
        rows)
check_and_reserve-Keeps_example =
    check_and_reserve-Keeps registry files 1 str_len initial config "openai" "gpt-4o" none context
      now rows

no_price : is_model_priced registry files 1 "openai" "gpt-4o" ≡ false
unfolding is_model_priced resolve_pricing resolve_vendor get_model_pricing best_prefix
no_price = refl

policy_matches : matching_policies (policy ∷ []) "gpt-4o" context now ≡ matched
unfolding matching_policies matches_policy period_start
policy_matches = refl

estimate_without_body : estimate_request_tokens str_len none ≡ some (100, 1000)
unfolding estimate_request_tokens
estimate_without_body = refl

cons_nonempty : {ms : List (Matched ℕ)} → ms ≡ matched → ms ≢ []
cons_nonempty h e = unit_of (sym h ∙ e)
  where
    unit_of : matched ≡ [] → ⊥
    unit_of d = ground arith

some_present : {o : Option (ℕ × ℕ)} → o ≡ some (100, 1000) → o ≢ none
some_present h e = unit_of (sym h ∙ e)
  where
    unit_of : ◌≡◌ {A = Option (ℕ × ℕ)} (some (100, 1000)) none → ⊥
    unit_of d = ground arith

unpriced_refused_example :
    check_and_reserve registry files 1 str_len initial config "openai" "gpt-4o" none context now
      rows
    ≡ (some (unpriced "gpt-4o"), rows)
unpriced_refused_example =
    unpriced_refused registry files 1 str_len initial config "openai" "gpt-4o" none context now rows
      refl refl no_price (cons_nonempty policy_matches) (some_present estimate_without_body)

abbrev rates : ℕ → ℕ → Rates ℕ
rates input output = record {
  input_per_million = some input;
  output_per_million = some output;
  reasoning_per_million = none;
  cache_read_per_million = none;
  cache_write_per_million = none;
  audio_input_per_million = none;
  audio_output_per_million = none;
  unit_prices = none;
}

abbrev entry : Pricing ℕ
entry = record {
  rates = rates 3000000 15000000;
  scheduled = record { effective = 20; rates = rates 2000000 10000000; tiered = none } ∷ [];
  tiered = some (record { over = 200000; rates = rates 6000000 30000000 } ∷ []);
}

abbrev priced_files : PricingFiles ℕ
priced_files = ("openai", ("gpt-4o", entry) ∷ []) ∷ []

abbrev priced_registry : Registry
priced_registry =
    ("openai", record { pricing_key = "openai"; prompt_tokens_include_cache = true }) ∷ []

-- The counter of one request that costs less than its estimate, and then of another request.
abbrev before : Counters ℕ
before n s = none

abbrev charge : Counters ℕ → Counters ℕ
charge rows =
    (check_and_reserve priced_registry priced_files 1 str_len initial config request.provider
      request.model request.body request.context request.now rows).1

Reach-IsWithin_example :
    IsWithin (policy ∷ []) (charge (reconcile 9000 (allowed 15300 matched) (charge before)))
Reach-IsWithin_example =
    Reach-IsWithin micro-HasDifferences config (tt, tt)
      (next
        (next (next here (requested priced_registry priced_files 1 str_len initial request before))
          (reconciled 9000 15300 matched (charge before) refl))
        (requested priced_registry priced_files 1 str_len initial request _))
      (λ p s v mem e. cc)

abbrev reserved_rows : Counters ℕ
reserved_rows = (reserve initial 500000 matched rows).1

reserved_so : reserve initial 500000 matched rows ≡ (allowed 500000 matched, reserved_rows)
unfolding reserve check_policies spend_of
reserved_so = refl

reconcile-reserve_example :
    reconcile 300000 (allowed 500000 matched) reserved_rows "team-daily" 739000
    ≡ settled initial 500000 300000 rows matched "team-daily" 739000
reconcile-reserve_example =
    reconcile-reserve initial 500000 300000 (policy, 739000) [] rows reserved_rows "team-daily"
      739000 (tt, tt) refl reserved_so
