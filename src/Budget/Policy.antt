-- ===== src/Budget/Policy.antt =====
-- Budget policies of burnlens/budget_engine.py: the period that a policy counts over, the requests
-- that it applies to, and what has been spent before its counter exists. A datetime is its
-- ordinal (Python's `toordinal`), its day of the month and the microseconds of its day. SQLite's
-- `SUM` and SHA-256 are parameters.
pub mod Periods
use burnlens.Prelude.{
  ℕ, ◌+◌, ◌-◌, ◌*◌, String, Bool, true, false, not, ◌&&◌, ◌||◌, Option, none, some, List, map, leb,
  ◌==◌, is_some, if◌then◌else◌,
}
use burnlens.Prelude.Dict.{Dict, lookup}
use burnlens.Prelude.Lists.{filter}
use Prim.Native.Nat.{◌%◌}

-- `BudgetPolicy` of burnlens/config.py
pub record BudgetPolicy (W : Type 0) : Type 0 where
  pub name : String
  pub scope : String
  pub target : String
  pub limit_usd : W
  pub period : String

pub record DateTime : Type 0 where
  pub ordinal : ℕ
  pub day : ℕ
  pub microsecond_of_day : ℕ

-- Monday is 0
unfoldable pub weekday : DateTime → ℕ
weekday now = (now.ordinal + 6) % 7

-- `_get_period_start`, as the ordinal of the day whose midnight it is
unfoldable pub period_start : String → DateTime → ℕ
period_start period now =
    if period == "daily"
    then now.ordinal
    else if period == "weekly"
    then now.ordinal - weekday now
    else now.ordinal - (now.day - 1)

pub record RequestContext : Type 0 where
  pub org_id : Option String
  pub team : Option String
  pub app_id : Option String
  pub customer : Option String

-- `if not val: return False; return target == "*" or target == val`
unfoldable pub matches_target : String → Option String → Bool
matches_target target none = false
matches_target target (some val) = not (val == "") && (target == "*" || target == val)

module _ {W : Type 0} where
  -- `_matches_policy`
  unfoldable pub matches_policy : BudgetPolicy W → String → RequestContext → Bool
  unfolding matches_target
  matches_policy policy model context =
      if policy.scope == "org"
      then matches_target policy.target context.org_id
      else if policy.scope == "team"
      then matches_target policy.target context.team
      else if policy.scope == "app"
      then matches_target policy.target context.app_id
      else if policy.scope == "customer"
      then matches_target policy.target context.customer
      else if policy.scope == "model"
      then matches_target policy.target (some model)
      else false

-- a row of the table `requests`; `tags` holds the text values of the JSON column
pub record RequestRow (W : Type 0) : Type 0 where
  pub timestamp : ℕ  -- microseconds since midnight of ordinal 0
  pub cost_usd : W
  pub org_id : Option String
  pub team : Option String
  pub app_id : Option String
  pub customer_hash : Option String
  pub model : Option String
  pub tags : Dict String

-- `column = ?`, which NULL is not
unfoldable pub equals : Option String → String → Bool
equals none v = false
equals (some u) v = u == v

module _ {W : Type 0} (sum : List W → W) (sha256_hex : String → String) where
  -- the `WHERE` clause behind the timestamp; `none` where the code returns 0.0 at once
  unfoldable pub spend_filter : BudgetPolicy W → Option (RequestRow W → Bool)
  unfolding equals
  spend_filter policy =
      let target = policy.target in
      let all = target == "*" in
      if policy.scope == "org"
      then some (λ r.
        if all then true else equals r.org_id target || equals (lookup "org_id" r.tags) target)
      else if policy.scope == "team"
      then some (λ r.
        if all
        then is_some r.team || is_some (lookup "team" r.tags)
        else equals r.team target || equals (lookup "team" r.tags) target)
      else if policy.scope == "app"
      then some (λ r.
        if all
        then is_some r.app_id || is_some (lookup "app_id" r.tags)
        else equals r.app_id target || equals (lookup "app_id" r.tags) target)
      else if policy.scope == "customer"
      then some (λ r.
        if all
        then is_some r.customer_hash || is_some (lookup "customer" r.tags)
        else equals r.customer_hash (sha256_hex target) || equals (lookup "customer" r.tags) target)
      else if policy.scope == "model"
      then some (λ r. if all then is_some r.model else equals r.model target)
      else none

  -- `_calculate_initial_spend`; `nought` is the 0.0 of an unknown scope
  unfoldable pub initial_spend : W → List (RequestRow W) → BudgetPolicy W → ℕ → W
  initial_spend nought rows policy since = elim (spend_filter policy) [
    | none ↦ nought
    | some keep ↦
        sum (
          map (λ r. r.cost_usd)
            (filter (λ r. leb (since * 86400000000) r.timestamp && keep r) rows))
  ]
