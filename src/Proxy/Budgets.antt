-- ===== src/Proxy/Budgets.antt =====
-- The caps on an API key's day and on a customer's month: burnlens/key_budget.py, the budgets of
-- burnlens/config.py, and the customer's check of burnlens/proxy/interceptor.py. The monotonic clock
-- is read by the caller, and the spend that a query returns is a parameter, `none` for an exception.
use burnlens.Prelude.{String, Bool, not, Option, none, some, ◌==◌, if◌then◌else◌}
use burnlens.Prelude.Dict.{Dict, lookup, insert, remove}
use burnlens.Float.{Float}

pub record KeyBudgetEntry (W : Type 0) : Type 0 where
  pub daily_usd : Option W
  pub monthly_usd : Option W

pub record ApiKeyBudgetsConfig (W : Type 0) : Type 0 where
  pub keys : Dict (KeyBudgetEntry W)
  pub default : Option (KeyBudgetEntry W)

pub record CustomerBudgetsConfig (W : Type 0) : Type 0 where
  pub default : Option W
  pub customers : Dict W

-- a cached spend and the time of its caching
abbrev pub SpendCache : Type 0 → Type 0
SpendCache W = Dict (W × W)

module _ {W : Type 0} where
  daily_of : Option (KeyBudgetEntry W) → Option W
  daily_of none = none
  daily_of (some entry) = entry.daily_usd

  abbrev pub first_of : Option W → Option W → Option W
  first_of none b = b
  first_of (some a) b = some a

  -- `daily_cap_for`
  unfoldable pub daily_cap_for : ApiKeyBudgetsConfig W → String → Option W
  unfolding daily_of
  daily_cap_for c label =
      if label == "" then none else first_of (daily_of (lookup label c.keys)) (daily_of c.default)

  -- `_customer_budget_limit`
  unfoldable pub customer_budget_limit : CustomerBudgetsConfig W → String → Option W
  customer_budget_limit c customer = first_of (lookup customer c.customers) c.default

  -- `SpendCache.invalidate`
  unfoldable pub invalidate : String → SpendCache W → SpendCache W
  invalidate label cache = remove label cache

module _ {W : Type 0} ⦃f : Float W⦄ where
  -- the two tests of an entry's age: a daily spend lives below 30 seconds, a monthly one up to 60
  unfoldable pub daily_fresh : W → W × W → Bool
  daily_fresh now entry = f.lt (f.sub now entry.1) (f.lit 30 0)

  unfoldable pub monthly_fresh : W → W × W → Bool
  monthly_fresh now entry = not (f.lt (f.lit 60 0) (f.sub now entry.1))

  cached : (W × W → Bool) → Option (W × W) → Option W
  cached fresh none = none
  cached fresh (some entry) = if fresh entry then some entry.0 else none

  queried : Option W → W → String → SpendCache W → Option W × SpendCache W
  queried none later label cache = (none, cache)
  queried (some spent) later label cache = (some spent, insert label (spent, later) cache)

  spend_of : Option W → Option W → W → String → SpendCache W → Option W × SpendCache W
  spend_of (some spent) query later label cache = (some spent, cache)
  spend_of none query later label cache = queried query later label cache

  -- `get_today_spend`: the clock is read before the cache and after the query
  unfoldable pub get_today_spend :
      String → Option W → W → W → SpendCache W → Option W × SpendCache W
  unfolding cached queried spend_of
  get_today_spend label query now later cache =
      spend_of (cached (daily_fresh now) (lookup label cache)) query later label cache

  expired_of : Option W → Option W → W → String → SpendCache W → Option W × SpendCache W
  expired_of (some spent) query later label cache = (some spent, cache)
  expired_of none query later label cache = queried query later label (remove label cache)

  -- `_get_cached_customer_spend`, which deletes an expired entry, and `_set_cached_customer_spend` around the query
  unfoldable pub customer_spend : String → Option W → W → W → SpendCache W → Option W × SpendCache W
  unfolding cached queried expired_of
  customer_spend customer query now later cache =
      expired_of (cached (monthly_fresh now) (lookup customer cache)) query later customer cache

  -- the spend and the cap, where the cap is reached
  breach_of : Option W → W → Option (W × W)
  breach_of none cap = none
  breach_of (some spent) cap = if f.le cap spent then some (spent, cap) else none

  capped : Option W → String → Option W → W → W → SpendCache W → Option (W × W) × SpendCache W
  capped none label query now later cache = (none, cache)
  capped (some cap) label query now later cache =
      let (spent, cache') = get_today_spend label query now later cache in
      (breach_of spent cap, cache')

  -- `enforce_daily_cap`, and the request passes where it raises
  unfoldable pub enforce_daily_cap :
      ApiKeyBudgetsConfig W
      → String
      → Option W
      → W
      → W
      → SpendCache W
      → Option (W × W) × SpendCache W
  unfolding breach_of capped
  enforce_daily_cap c label query now later cache =
      capped (daily_cap_for c label) label query now later cache

  over_limit : Option W → W → Option (W × W)
  over_limit none limit = none
  over_limit (some spent) limit = if f.lt spent limit then none else some (spent, limit)

  limited : Option W → String → Option W → W → W → SpendCache W → Option (W × W) × SpendCache W
  limited none customer query now later cache = (none, cache)
  limited (some limit) customer query now later cache =
      let (spent, cache') = customer_spend customer query now later cache in
      (over_limit spent limit, cache')

  -- `check_customer_budget`: the spend and the limit where it does not allow the request, and the
  -- request passes where it raises
  unfoldable pub check_customer_budget :
      CustomerBudgetsConfig W
      → String
      → Option W
      → W
      → W
      → SpendCache W
      → Option (W × W) × SpendCache W
  unfolding over_limit limited
  check_customer_budget c customer query now later cache =
      limited (customer_budget_limit c customer) customer query now later cache
