-- ===== src/Cost/Calculator.antt =====
-- burnlens/cost/calculator.py: from token counts to dollars. Token counts are the non-negative
-- numbers that providers report. The process-global set of unpriced models is passed along.
pub mod Geo
pub mod Unpriced
use Prim.Native.Char.{code}
use burnlens.Prelude.{
  ℕ, ◌-◌, String, Bool, true, false, ◌&&◌, ◌||◌, Option, none, some, List, [], ◌∷◌, leb, ◌==◌,
  ◌==ℕ◌, starts_with, if◌then◌else◌, or_else, is_some,
}
use burnlens.Prelude.Dict.{Dict, lookup}
use burnlens.Float.{Float, nought}
use burnlens.Cost.Pricing.{Rates, Pricing, PricingFiles, Registry, apply_tiered, get_model_pricing}

pub record TokenUsage (W : Type 0) : Type 0 where
  pub input_tokens : ℕ
  pub output_tokens : ℕ
  pub reasoning_tokens : ℕ
  pub cache_read_tokens : ℕ
  pub cache_write_tokens : ℕ
  pub audio_input_tokens : ℕ
  pub audio_output_tokens : ℕ
  pub units : Dict W

-- `_cursor_underlying`
unfoldable pub cursor_underlying : String → Option (String × String)
cursor_underlying model =
    if model == "cursor-auto-sonnet-est"
    then some ("anthropic", "claude-sonnet-4-6")
    else if starts_with model "claude"
    then some ("anthropic", model)
    else if starts_with model "gpt"
        || (starts_with model "o1" || (starts_with model "o3" || starts_with model "o4"))
    then some ("openai", model)
    else none

-- The pattern `^[a-z0-9-]+\.(?=anthropic\.)`: a run of these characters, a dot, and the rest.
abbrev pub is_geo_char : ℕ → Bool
is_geo_char c = (leb 97 c && leb c 122) || ((leb 48 c && leb c 57) || (c ==ℕ 45))

abbrev pub after_dot : Bool → String → Option String
after_dot seen String.[] = none
after_dot seen (String.◌∷◌ c s) =
    let rest = after_dot true s in
    if is_geo_char (code c) then rest else if seen && (code c ==ℕ 46) then some s else none

abbrev pub keep_vendor : String → Option String → String
keep_vendor model none = model
keep_vendor model (some rest) = if starts_with rest "anthropic." then rest else model

-- the `re.sub` of `resolve_pricing`
unfoldable pub strip_geo : String → String
strip_geo model = keep_vendor model (after_dot false model)

-- `_includes_cache`
unfoldable pub includes_cache : Registry → String → Bool
includes_cache registry provider = elim (lookup provider registry) [
  | none ↦ false
  | some p ↦ p.prompt_tokens_include_cache
]

module _ {W : Type 0} (registry : Registry) (files : PricingFiles W) (today : ℕ) where
  -- `resolve_pricing` for a provider other than Cursor
  unfoldable pub resolve_vendor : String → String → Option (Pricing W)
  unfolding strip_geo
  resolve_vendor provider model =
      get_model_pricing registry files provider
        (if provider == "bedrock" then strip_geo model else model) today

  -- `resolve_pricing`; the inner call is never for Cursor
  unfoldable pub resolve_pricing : String → String → Option (Pricing W)
  resolve_pricing provider model =
      if provider == "cursor"
      then (elim (cursor_underlying model) [
        | none ↦ none
        | some (vendor, underlying) ↦ resolve_vendor vendor underlying
      ])
      else resolve_vendor provider model

  unfoldable pub is_model_priced : String → String → Bool
  is_model_priced provider model = is_some (resolve_pricing provider model)

pub data PricingClass : Type 0 where
  unpriced calculated estimated : PricingClass

-- `pricing_class_for`
unfoldable pub pricing_class_for :
    {W : Type 0} → Registry → PricingFiles W → ℕ → String → String → String → PricingClass
pricing_class_for registry files today provider model source =
    if is_model_priced registry files today provider model
    then if starts_with source "scan_" then estimated else calculated
    else unpriced

-- the three token counts that are billed at a rate of their own
unfoldable pub cached_is_subset : {W : Type 0} → Registry → String → TokenUsage W → ℕ
cached_is_subset registry provider usage =
    if includes_cache registry provider then usage.cache_read_tokens else 0

-- `max(0, a - b - c)`, which is what `-` on ℕ gives
unfoldable pub billable_input : {W : Type 0} → Registry → String → TokenUsage W → ℕ
billable_input registry provider usage =
    usage.input_tokens - cached_is_subset registry provider usage - usage.audio_input_tokens

unfoldable pub billable_output : {W : Type 0} → TokenUsage W → ℕ
billable_output usage = usage.output_tokens - usage.audio_output_tokens

module _ {W : Type 0} ⦃f : Float W⦄ where
  -- `count * rate / per_million`
  unfoldable pub per_million : ℕ → W → W
  per_million n rate = f.div (f.mul (f.of_nat n) rate) (f.lit 1000000 0)

  -- `sum(count * unit_prices.get(name, 0.0) for name, count in units)`
  unfoldable pub units_cost : Dict W → Dict W → W → W
  units_cost prices [] total = total
  units_cost prices ((name, n) ∷ units) total =
      units_cost prices units (f.add total (f.mul n (or_else (lookup name prices) nought)))

  unfoldable pub reasoning_rate : Rates W → W
  reasoning_rate r = or_else r.reasoning_per_million (or_else r.output_per_million nought)

  unfoldable pub audio_input_rate : Rates W → W
  audio_input_rate r = or_else r.audio_input_per_million (or_else r.input_per_million nought)

  unfoldable pub audio_output_rate : Rates W → W
  audio_output_rate r = or_else r.audio_output_per_million (or_else r.output_per_million nought)

  -- `calculate_cost` from the effective rates on
  unfoldable pub cost_at : Registry → String → Rates W → TokenUsage W → W
  cost_at registry provider r usage =
      let input_cost =
        per_million (billable_input registry provider usage) (or_else r.input_per_million nought) in
      let output_cost = per_million (billable_output usage) (or_else r.output_per_million nought) in
      let reasoning_cost = per_million usage.reasoning_tokens (reasoning_rate r) in
      let cache_read_cost =
        per_million usage.cache_read_tokens (or_else r.cache_read_per_million nought) in
      let cache_write_cost =
        per_million usage.cache_write_tokens (or_else r.cache_write_per_million nought) in
      let audio_input_cost = per_million usage.audio_input_tokens (audio_input_rate r) in
      let audio_output_cost = per_million usage.audio_output_tokens (audio_output_rate r) in
      let units = units_cost (or_else r.unit_prices []) usage.units nought in
      f.add
        (f.add
          (f.add
            (f.add (f.add (f.add (f.add input_cost output_cost) reasoning_cost) cache_read_cost)
              cache_write_cost)
            audio_input_cost)
          audio_output_cost)
        units

abbrev pub Seen : Type 0
Seen = List (String × String)

unfoldable pub seen_before : String × String → Seen → Bool
seen_before pair [] = false
seen_before (p, m) ((q, n) ∷ seen) = (q == p && n == m) || seen_before (p, m) seen

-- `set.add`
unfoldable pub add_seen : String × String → Seen → Seen
add_seen pair seen = if seen_before pair seen then seen else pair ∷ seen

module _ {W : Type 0} ⦃f : Float W⦄ (registry : Registry) (files : PricingFiles W) (today : ℕ) where
  -- `calculate_cost`: the cost, and the set of unpriced models after it
  unfoldable pub calculate_cost : String → String → TokenUsage W → Seen → W × Seen
  calculate_cost provider model usage seen =
      elim (resolve_pricing registry files today provider model) [
        | none ↦ (nought, add_seen (provider, model) seen)
        | some pricing ↦
            (cost_at registry provider (apply_tiered pricing usage.input_tokens) usage, seen)
      ]
