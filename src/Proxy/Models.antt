-- ===== src/Proxy/Models.antt =====
-- The data of the gate of burnlens/proxy/interceptor.py: requests, answers, and what the gate asks of
-- its surroundings.
use burnlens.Prelude.{ℕ, ◌≡◌, String, Bool, not, ◌&&◌, Option, List}
use burnlens.Prelude.Dict.{Dict}
use burnlens.Cost.Pricing.{Registry, PricingFiles}
use burnlens.Cost.Calculator.{is_model_priced}
use burnlens.Proxy.Keys.{KeyRow}
use burnlens.Proxy.Budgets.{SpendCache}

-- the budget that an unpriced model would escape
pub data Budget : Type 0 where
  virtual_key_monthly : Budget
  daily_cap : String → Budget
  customer_budget : String → Budget

-- an answer in place of the provider's
pub data Rejection (W : Type 0) : Type 0 where
  gateway_error : Rejection W
  invalid_virtual_key : Rejection W
  provider_mismatch : String → Rejection W
  model_not_allowed : String → List String → Rejection W
  unpriced_model_blocked : String → String → Budget → Rejection W
  team_budget_exceeded : String → W → W → Rejection W
  gateway_misconfigured : Rejection W
  daily_budget_exceeded : String → W → W → Rejection W
  budget_exceeded : String → W → W → Rejection W

-- its status
unfoldable pub status_of {ℓ} : {W : Type 0} → Rejection W → ℕ
status_of gateway_error = 503
status_of invalid_virtual_key = 401
status_of (provider_mismatch expected) = 403
status_of (model_not_allowed model allowed) = 403
status_of (unpriced_model_blocked provider model budget) = 403
status_of (team_budget_exceeded team spent limit) = 429
status_of gateway_misconfigured = 503
status_of (daily_budget_exceeded label spent limit) = 429
status_of (budget_exceeded customer spent limit) = 429

pub data Gated (W A : Type 0) : Type 0 where
  refuse : Rejection W → Gated W A
  pass : A → Gated W A

pub pass_injective : {W A : Type 0} {a b : A} (g : Gated W A) → g ≡ pass a → g ≡ pass b → a ≡ b
pass_injective g h k = cc

pub record Request : Type 0 where
  pub provider : String
  pub model : String
  pub unpriced : Bool
  pub headers : Dict String
  pub tags : Dict String
  pub headers_to_strip : List String

-- what the gate asks of the database, the environment and the clock; a query that raises is `none`
pub record World (W : Type 0) : Type 0 where
  pub keys : Option (List (KeyRow W))
  pub team_spend : Option (Dict W)
  pub environ : Dict String
  pub label_of : String → Option String
  pub key_spend : String → Option W
  pub customer_spend : Option (Dict W)
  pub key_clock : W × W
  pub customer_clock : W × W

pub record Caches (W : Type 0) : Type 0 where
  pub keys : SpendCache W
  pub customers : SpendCache W

-- `unpriced`, which a configuration can leave unchecked
unfoldable pub is_unpriced :
    {W : Type 0} → Registry → PricingFiles W → ℕ → Bool → String → String → Bool
is_unpriced registry files today block_unpriced_models provider model =
    block_unpriced_models && not (is_model_priced registry files today provider model)
