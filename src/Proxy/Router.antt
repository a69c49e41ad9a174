-- ===== src/Proxy/Router.antt =====
-- The routing to a cheaper model: burnlens/proxy/router.py and burnlens/providers/downgrade.py. A query
-- of spend that raises is `none`, and the removal of a version suffix is a regular expression.
pub mod Downgrades
use burnlens.Prelude.{
  String, Bool, true, false, not, Option, none, some, List, [], ◌∷◌, ◌==◌, or_else, if◌then◌else◌,
}
use burnlens.Prelude.Dict.{Dict, lookup, insert}
use burnlens.Float.{Float, nought, max}
use burnlens.Proxy.Budgets.{CustomerBudgetsConfig, SpendCache, monthly_fresh}

pub data RouteReason : Type 0 where
  budget_pct budget_usd no_downgrade_needed no_alternative no_budget disabled error : RouteReason

pub record RouteDecision (W : Type 0) : Type 0 where
  pub original_model : String
  pub routed_model : String
  pub downgraded : Bool
  pub reason : RouteReason
  pub budget_remaining_usd : W
  pub budget_remaining_pct : W

-- the configuration that the router reads
pub record RoutingConfig (W : Type 0) : Type 0 where
  pub budget_downgrade : Bool
  pub downgrade_threshold_pct : W
  pub downgrade_threshold_usd : W
  pub customer_budgets : CustomerBudgetsConfig W
  pub team_limits : Dict W
  pub global_usd : Option W
  pub budget_limit_usd : Option W

-- `DOWNGRADE_MAP`
abbrev pub downgrade_map : Dict String
downgrade_map =
    ("gpt-4o", "gpt-4o-mini")
    ∷ ("gpt-4-turbo", "gpt-4o-mini")
    ∷ ("o1", "gpt-4o-mini")
    ∷ ("o3", "gpt-4o-mini")
    ∷ ("o1-mini", "gpt-4o-mini")
    ∷ ("gpt-5.2", "gpt-5-mini")
    ∷ ("gpt-5.2-pro", "gpt-5-mini")
    ∷ ("gpt-5.6", "gpt-5.6-terra")
    ∷ ("gpt-5.6-sol", "gpt-5.6-terra")
    ∷ ("gpt-5.6-terra", "gpt-5.6-luna")
    ∷ ("claude-opus-4-6", "claude-haiku-4-5-20251001")
    ∷ ("claude-sonnet-4-6", "claude-haiku-4-5-20251001")
    ∷ ("claude-3-5-sonnet-20241022", "claude-haiku-4-5-20251001")
    ∷ ("claude-sonnet-5", "claude-haiku-4-5")
    ∷ ("gemini-1.5-pro", "gemini-1.5-flash")
    ∷ ("gemini-2.0-pro", "gemini-1.5-flash")
    ∷ ("gemini-3.1-pro-preview", "gemini-3.1-flash-lite")
    ∷ []

by_stripped : Option String → String → String → Option String
by_stripped (some target) stripped model = some target
by_stripped none stripped model = if stripped == model then none else lookup stripped downgrade_map

-- `get_downgrade_model`
unfoldable pub get_downgrade_model : (String → String) → String → Option String
unfolding by_stripped
get_downgrade_model strip_suffix model =
    by_stripped (lookup model downgrade_map) (strip_suffix model) model

-- the spend queries of a month: by customer and by team, and the sum over the teams
pub record Spends (W : Type 0) : Type 0 where
  pub by_customer : Option (Dict W)
  pub by_team : Option (Dict W)
  pub clock : W × W

-- a budget: no limit, or a limit with the spend, which is `none` where its query raises
abbrev pub Resolved : Type 0 → Type 0
Resolved W = Option (W × Option W) × SpendCache W

module _ {W : Type 0} ⦃f : Float W⦄ where
  -- `a or b` on limits: a zero is no limit
  unfoldable pub or_limit : Option W → Option W → Option W
  or_limit none b = b
  or_limit (some a) b = if f.le a nought then (if f.le nought a then b else some a) else some a

  total_from : W → Dict W → W
  total_from acc [] = acc
  total_from acc ((team, spend) ∷ spends) = total_from (f.add acc spend) spends

  spend_for : String → Option (Dict W) → Option W
  spend_for name none = none
  spend_for name (some spends) = some (or_else (lookup name spends) nought)

  total_of : Option (Dict W) → Option W
  unfolding total_from
  total_of none = none
  total_of (some spends) = some (total_from nought spends)

  cached_team : W → Option (W × W) → Option W
  cached_team now none = none
  cached_team now (some entry) = if monthly_fresh now entry then some entry.0 else none

  team_query : Option W → Option W → W → String → SpendCache W → Option W × SpendCache W
  team_query (some spend) query later team cache = (some spend, cache)
  team_query none none later team cache = (none, cache)
  team_query none (some spend) later team cache = (some spend, insert team (spend, later) cache)

  -- `_get_team_spend`
  unfoldable pub get_team_spend : String → Spends W → SpendCache W → Option W × SpendCache W
  unfolding spend_for cached_team team_query
  get_team_spend team w cache =
      team_query (cached_team w.clock.0 (lookup team cache)) (spend_for team w.by_team) w.clock.1
        team cache

  global_budget : Option W → Spends W → SpendCache W → Resolved W
  unfolding total_of
  global_budget none w cache = (none, cache)
  global_budget (some limit) w cache = (some (limit, total_of w.by_team), cache)

  team_budget : Option W → String → RoutingConfig W → Spends W → SpendCache W → Resolved W
  unfolding global_budget
  team_budget none team c w cache = global_budget (or_limit c.global_usd c.budget_limit_usd) w cache
  team_budget (some limit) team c w cache =
      let (spent, cache') = get_team_spend team w cache in (some (limit, spent), cache')

  by_team_tag : Option String → RoutingConfig W → Spends W → SpendCache W → Resolved W
  unfolding team_budget
  by_team_tag none c w cache = team_budget none "" c w cache
  by_team_tag (some team) c w cache =
      team_budget (if team == "" then none else lookup team c.team_limits) team c w cache

  customer_limit :
      Option W → String → Option String → RoutingConfig W → Spends W → SpendCache W → Resolved W
  unfolding by_team_tag spend_for
  customer_limit none customer team c w cache = by_team_tag team c w cache
  customer_limit (some limit) customer team c w cache =
      (some (limit, spend_for customer w.by_customer), cache)

  -- `_resolve_budget`: the customer's budget, else the team's, else the global one
  unfoldable pub resolve_budget :
      Option String → Option String → RoutingConfig W → Spends W → SpendCache W → Resolved W
  unfolding customer_limit
  resolve_budget team none c w cache = customer_limit none "" team c w cache
  resolve_budget team (some customer) c w cache =
      customer_limit
        (if customer == ""
          then none
          else or_limit (lookup customer c.customer_budgets.customers) c.customer_budgets.default)
        customer team c w cache

  -- a decision that keeps the model
  abbrev pub keep : String → RouteReason → W → W → RouteDecision W
  keep model reason remaining_usd remaining_pct = record {
    original_model = model;
    routed_model = model;
    downgraded = false;
    reason = reason;
    budget_remaining_usd = remaining_usd;
    budget_remaining_pct = remaining_pct;
  }

  -- the end of `_decide_route_inner`, where a threshold has triggered
  to_cheaper : Option String → String → RouteReason → W → W → RouteDecision W
  to_cheaper none model reason usd pct = keep model no_alternative usd pct
  to_cheaper (some cheaper) model reason usd pct = record {
    original_model = model;
    routed_model = cheaper;
    downgraded = true;
    reason = reason;
    budget_remaining_usd = usd;
    budget_remaining_pct = pct;
  }

  unfoldable pub remaining_usd : W → W → W
  remaining_usd limit spent = max nought (f.sub limit spent)

  unfoldable pub remaining_pct : W → W → W
  remaining_pct limit spent = f.mul (f.div (remaining_usd limit spent) limit) (f.lit 100 0)

  -- the thresholds, on a budget that is known
  unfoldable pub by_thresholds :
      (String → String) → String → RoutingConfig W → W → W → RouteDecision W
  unfolding to_cheaper
  by_thresholds strip_suffix model c limit spent =
      let usd = remaining_usd limit spent in
      let pct = remaining_pct limit spent in
      let cheaper = get_downgrade_model strip_suffix model in
      if f.lt pct c.downgrade_threshold_pct
      then to_cheaper cheaper model budget_pct usd pct
      else if f.lt usd c.downgrade_threshold_usd
      then to_cheaper cheaper model budget_usd usd pct
      else keep model no_downgrade_needed usd pct

  -- `limit is None or limit <= 0` comes after the query, which raises first
  on_budget : (String → String) → String → RoutingConfig W → Option (W × Option W) → RouteDecision W
  on_budget strip_suffix model c none = keep model no_budget nought (f.lit 100 0)
  on_budget strip_suffix model c (some (limit, none)) = keep model error nought (f.lit 100 0)
  on_budget strip_suffix model c (some (limit, some spent)) =
      if f.le limit nought
      then keep model no_budget nought (f.lit 100 0)
      else by_thresholds strip_suffix model c limit spent

  -- `decide_route`
  unfoldable pub decide_route :
      (String → String)
      → String
      → Option String
      → Option String
      → RoutingConfig W
      → Spends W
      → SpendCache W
      → RouteDecision W × SpendCache W
  unfolding on_budget
  decide_route strip_suffix model team customer c w cache =
      let (budget, cache') = resolve_budget team customer c w cache in
      if c.budget_downgrade
      then (on_budget strip_suffix model c budget, cache')
      else (keep model disabled nought (f.lit 100 0), cache)
