-- ===== src/Cost/Pricing.antt =====
-- burnlens/cost/pricing.py: the pricing entries of the bundled files, their dated and tiered
-- rate changes, and the lookup of a model. An entry is the JSON object with the keys that the
-- program reads. Dates are numbers of days. `PricingFiles` is what the files hold, by pricing key:
-- the caches of the source only keep what was read.
pub mod Tiers
pub mod Prefix
use Prim.Native.String.{count}
use mathlib.Core.Option
use burnlens.Prelude.{
  ℕ, String, Bool, true, ◌&&◌, Option, none, some, List, [], ◌∷◌, ltb, leb, ◌==◌, starts_with,
  if◌then◌else◌, or_else, override,
}
use burnlens.Prelude.Dict.{Dict, lookup}

module _ (W : Type 0) where
  -- the rate keys of an entry or of a tier; an absent key is `none`
  pub record Rates : Type 0 where
    pub input_per_million : Option W
    pub output_per_million : Option W
    pub reasoning_per_million : Option W
    pub cache_read_per_million : Option W
    pub cache_write_per_million : Option W
    pub audio_input_per_million : Option W
    pub audio_output_per_million : Option W
    pub unit_prices : Option (Dict W)

  pub record Tier : Type 0 where
    pub over : ℕ
    pub rates : Rates

  pub record Scheduled : Type 0 where
    pub effective : ℕ
    pub rates : Rates
    pub tiered : Option (List Tier)

  pub record Pricing : Type 0 where
    pub rates : Rates
    pub scheduled : List Scheduled
    pub tiered : Option (List Tier)

  abbrev pub PricingFiles : Type 0
  PricingFiles = Dict (Dict Pricing)

-- what `_resolve_pricing_key` and `_includes_cache` read of a registered provider
pub record ProviderConfig : Type 0 where
  pub pricing_key : String
  pub prompt_tokens_include_cache : Bool

abbrev pub Registry : Type 0
Registry = Dict ProviderConfig

key_of : String → Option ProviderConfig → String
key_of provider none = provider
key_of provider (some p) = p.pricing_key

-- `_resolve_pricing_key`
unfoldable pub resolve_pricing_key : Registry → String → String
unfolding key_of
resolve_pricing_key registry provider = key_of provider (lookup provider registry)

-- the test `best is None or len(known) > len(best)`
unfoldable pub longer_than : String → Option String → Bool
longer_than known none = true
longer_than known (some best) = ltb (count best) (count known)

module _ {W : Type 0} where
  -- `merged.update(...)`
  unfoldable pub merge : Rates W → Rates W → Rates W
  merge base new = record {
    input_per_million = override base.input_per_million new.input_per_million;
    output_per_million = override base.output_per_million new.output_per_million;
    reasoning_per_million = override base.reasoning_per_million new.reasoning_per_million;
    cache_read_per_million = override base.cache_read_per_million new.cache_read_per_million;
    cache_write_per_million = override base.cache_write_per_million new.cache_write_per_million;
    audio_input_per_million = override base.audio_input_per_million new.audio_input_per_million;
    audio_output_per_million = override base.audio_output_per_million new.audio_output_per_million;
    unit_prices = override base.unit_prices new.unit_prices;
  }

  -- the loop of `_apply_scheduled`
  later_of : Scheduled W → Option (Scheduled W) → Bool
  later_of tier none = true
  later_of tier (some active) = leb active.effective tier.effective

  unfoldable pub pick_scheduled :
      ℕ → List (Scheduled W) → Option (Scheduled W) → Option (Scheduled W)
  unfolding later_of
  pick_scheduled today [] active = active
  pick_scheduled today (tier ∷ tiers) active =
      pick_scheduled today tiers
        (if leb tier.effective today && later_of tier active then some tier else active)

  unfoldable pub merge_scheduled : Pricing W → Option (Scheduled W) → Pricing W
  merge_scheduled pricing none = record pricing { scheduled = [] }
  merge_scheduled pricing (some active) = record {
    rates = merge pricing.rates active.rates;
    scheduled = [];
    tiered = override pricing.tiered active.tiered;
  }

  -- `_apply_scheduled`
  unfoldable pub apply_scheduled : Pricing W → ℕ → Pricing W
  unfolding merge_scheduled
  apply_scheduled pricing today =
      merge_scheduled pricing (pick_scheduled today pricing.scheduled none)

  -- the loop of `apply_tiered`
  higher_of : Tier W → Option (Tier W) → Bool
  higher_of tier none = true
  higher_of tier (some active) = ltb active.over tier.over

  unfoldable pub pick_tier : ℕ → List (Tier W) → Option (Tier W) → Option (Tier W)
  unfolding higher_of
  pick_tier input_tokens [] active = active
  pick_tier input_tokens (tier ∷ tiers) active =
      pick_tier input_tokens tiers
        (if ltb tier.over input_tokens && higher_of tier active then some tier else active)

  unfoldable pub merge_tier : Rates W → Option (Tier W) → Rates W
  merge_tier rates none = rates
  merge_tier rates (some active) = merge rates active.rates

  -- `apply_tiered`; of the result only the rates are read
  unfoldable pub apply_tiered : Pricing W → ℕ → Rates W
  unfolding merge_tier
  apply_tiered pricing input_tokens =
      merge_tier pricing.rates (pick_tier input_tokens (or_else pricing.tiered []) none)

  -- the prefix loop of `get_model_pricing`
  unfoldable pub best_prefix : String → Dict (Pricing W) → Option String → Option String
  unfolding longer_than
  best_prefix model [] best = best
  best_prefix model ((known, _) ∷ models) best =
      best_prefix model models
        (if starts_with model known && longer_than known best then some known else best)

  by_prefix : Dict (Pricing W) → Option String → Option (Pricing W)
  by_prefix models none = none
  by_prefix models (some best) = if best == "" then none else lookup best models

  base_entry : Dict (Pricing W) → String → Option (Pricing W) → Option (Pricing W)
  unfolding by_prefix
  base_entry models model (some base) = some base
  base_entry models model none = by_prefix models (best_prefix model models none)

  -- `get_model_pricing`
  unfoldable pub get_model_pricing :
      Registry → PricingFiles W → String → String → ℕ → Option (Pricing W)
  unfolding base_entry
  get_model_pricing registry files provider model today =
      let models = or_else (lookup (resolve_pricing_key registry provider) files) [] in
      Option.map (λ base. apply_scheduled base today)
        (base_entry models model (lookup model models))
