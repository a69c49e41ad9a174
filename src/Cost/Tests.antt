-- ===== src/Cost/Tests.antt =====
-- The theorems on costs at work, and runs of the definitions.
use burnlens.Prelude.{ℕ, ◌≡◌, refl, String, true, false, Option, none, some, [], ◌∷◌, or_else}
use burnlens.Prelude.Best.{IsBest}
use burnlens.Float.Micro.{micro}
use burnlens.Cost.Pricing.{
  best_prefix, pick_tier, pick_scheduled, merge, Rates, Tier, Pricing, PricingFiles, Registry,
  apply_tiered, apply_scheduled, merge_tier, resolve_pricing_key, get_model_pricing,
}
use burnlens.Cost.Pricing.Tiers.{is_over, apply_tiered_highest}
use burnlens.Cost.Pricing.Prefix.{begins, name_length, entry_on, model_pricing_longest_prefix}
use burnlens.Cost.Calculator.{
  resolve_vendor, per_million, cached_is_subset, reasoning_rate, audio_input_rate,
  audio_output_rate, units_cost, TokenUsage, cost_at, includes_cache, billable_input,
  billable_output, resolve_pricing, calculate_cost,
}
use burnlens.Cost.Usage.{OpenAiUsage}

abbrev rates : ℕ → ℕ → Rates ℕ
rates input output = record {
  input_per_million = some input;
  output_per_million = some output;
  reasoning_per_million = none;
  cache_read_per_million = none;
  cache_write_per_million = none;
  audio_input_per_million = none;
  audio_output_per_million = none;
  unit_prices = none;
}

abbrev entry : Pricing ℕ
entry = record {
  rates = rates 3000000 15000000;
  scheduled = record { effective = 20; rates = rates 2000000 10000000; tiered = none } ∷ [];
  tiered = some (record { over = 200000; rates = rates 6000000 30000000 } ∷ []);
}

abbrev files : PricingFiles ℕ
files =
    ("openai", ("gpt-4o", entry) ∷ ("gpt-4o-mini", entry) ∷ [])
    ∷ ("bedrock", ("anthropic.claude", entry) ∷ [])
    ∷ []

abbrev registry : Registry
registry =
    ("openai", record { pricing_key = "openai"; prompt_tokens_include_cache = true })
    ∷ ("bedrock", record { pricing_key = "bedrock"; prompt_tokens_include_cache = false })
    ∷ []

abbrev usage : TokenUsage ℕ
usage = record {
  input_tokens = 1000;
  output_tokens = 500;
  reasoning_tokens = 100;
  cache_read_tokens = 200;
  cache_write_tokens = 0;
  audio_input_tokens = 50;
  audio_output_tokens = 0;
  units = [];
}

abbrev openai_usage : OpenAiUsage
openai_usage = record {
  prompt_tokens = some 1000;
  completion_tokens = some 600;
  reasoning_tokens = some 100;
  completion_audio_tokens = some 50;
  cached_tokens = some 200;
  prompt_audio_tokens = none;
}

apply_tiered_highest_example :
    (r : Option (Tier ℕ)) × IsBest (is_over 300000) (λ t. t.over) (or_else entry.tiered []) r
    × (apply_tiered entry 300000 ≡ merge_tier entry.rates r)
apply_tiered_highest_example = apply_tiered_highest entry 300000

model_pricing_longest_prefix_example :
    (r : Option (String × Pricing ℕ)) × IsBest
      (begins "gpt-4o-mini-2024")
      name_length
      (("gpt-4o", entry) ∷ ("gpt-4o-mini", entry) ∷ [])
      r
    × (get_model_pricing registry files "openai" "gpt-4o-mini-2024" 25
        ≡ entry_on (("gpt-4o", entry) ∷ ("gpt-4o-mini", entry) ∷ []) 25 r)
unfolding resolve_pricing_key
model_pricing_longest_prefix_example =
    model_pricing_longest_prefix registry files "openai" "gpt-4o-mini-2024" 25
      (("gpt-4o", entry) ∷ ("gpt-4o-mini", entry) ∷ []) refl refl refl

-- 750 uncached prompt tokens and 50 of audio at 2 dollars a million, 500 completion tokens and 100
-- of reasoning at 10 dollars: 0.0076 dollars.
calculate_cost_run : (calculate_cost registry files 25 "openai" "gpt-4o-2024" usage []).0 ≡ 7600
unfolding calculate_cost cost_at billable_input billable_output includes_cache get_model_pricing
    resolve_pricing resolve_vendor resolve_pricing_key best_prefix per_million cached_is_subset
    apply_tiered pick_tier apply_scheduled pick_scheduled merge reasoning_rate audio_input_rate
    audio_output_rate units_cost
calculate_cost_run = refl
