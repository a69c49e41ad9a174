-- ===== src/Proxy/Gate.antt =====
-- `handle_request` of burnlens/proxy/interceptor.py, up to the headers that are forwarded: the virtual
-- key, the cap on the API key and the customer's budget, in this order.
pub mod Safety
use burnlens.Prelude.{String, ◌&&◌, Option, none, some, ◌==◌, is_some, or_else, if◌then◌else◌}
use burnlens.Prelude.Dict.{Dict, lookup, insert}
use burnlens.Float.{Float, nought}
use burnlens.Proxy.Keys.{VirtualKey}
use burnlens.Proxy.Headers.{TextFunctions, extract_api_key_hash, clean_request_headers, swap_key}
use burnlens.Proxy.Budgets.{
  ApiKeyBudgetsConfig, CustomerBudgetsConfig, SpendCache, daily_cap_for, customer_budget_limit,
  enforce_daily_cap, check_customer_budget,
}
use burnlens.Proxy.Models.{
  daily_cap, customer_budget, Rejection, unpriced_model_blocked, daily_budget_exceeded,
  budget_exceeded, Gated, refuse, pass, Request, World, Caches,
}
use burnlens.Proxy.KeyGate.{virtual_gate}

default_tag : Option String → String → String → Dict String → Dict String
default_tag none name value tags = insert name value tags
default_tag (some old) name value tags = tags

label_tags : Option String → Dict String → Dict String
label_tags none tags = tags
label_tags (some label) tags = if label == "" then tags else insert "key_label" label tags

module _ {W : Type 0} ⦃f : Float W⦄ where
  -- the tags of the virtual key, with `setdefault` for its label
  key_tags : Option (String × String × VirtualKey W) → Dict String → Dict String
  unfolding default_tag
  key_tags none tags = tags
  key_tags (some (name, key, k)) tags =
      let with_team = insert "team" k.team tags in
      default_tag (lookup "key_label" with_team) "key_label" k.label with_team

  label_of : TextFunctions → World W → Option String → Option String
  label_of t w none = none
  label_of t w (some key_hash) = w.label_of key_hash

  -- the registered label of the request's key; a lookup that raises finds none
  unfoldable pub request_label : TextFunctions → Request → World W → Option String
  unfolding label_of
  request_label t r w = label_of t w (extract_api_key_hash t r.headers)

  rejected_key : String → Option (W × W) → Option (Rejection W)
  rejected_key label none = none
  rejected_key label (some (spent, cap)) = some (daily_budget_exceeded label spent cap)

  -- the cap on the key's day
  unfoldable pub label_gate :
      Option (ApiKeyBudgetsConfig W)
      → Option String
      → Request
      → World W
      → SpendCache W
      → Option (Rejection W) × SpendCache W
  unfolding rejected_key
  label_gate none label r w cache = (none, cache)
  label_gate (some c) none r w cache = (none, cache)
  label_gate (some c) (some label) r w cache =
      if label == ""
      then (none, cache)
      else if r.unpriced && is_some (daily_cap_for c label)
      then (some (unpriced_model_blocked r.provider r.model (daily_cap label)), cache)
      else let (breach, cache') =
          enforce_daily_cap c label (w.key_spend label) w.key_clock.0 w.key_clock.1 cache in
        (rejected_key label breach, cache')

  customer_query : Option (Dict W) → String → Option W
  customer_query none customer = none
  customer_query (some spends) customer = some (or_else (lookup customer spends) nought)

  rejected_customer : String → Option (W × W) → Option (Rejection W)
  rejected_customer customer none = none
  rejected_customer customer (some (spent, limit)) = some (budget_exceeded customer spent limit)

  -- the customer's budget
  unfoldable pub customer_gate :
      Option (CustomerBudgetsConfig W)
      → Option String
      → Request
      → World W
      → SpendCache W
      → Option (Rejection W) × SpendCache W
  unfolding customer_query rejected_customer
  customer_gate none customer r w cache = (none, cache)
  customer_gate (some c) none r w cache = (none, cache)
  customer_gate (some c) (some customer) r w cache =
      if customer == ""
      then (none, cache)
      else if r.unpriced && is_some (customer_budget_limit c customer)
      then (some (unpriced_model_blocked r.provider r.model (customer_budget customer)), cache)
      else let (over, cache') =
          check_customer_budget c customer (customer_query w.customer_spend customer)
            w.customer_clock.0 w.customer_clock.1 cache in
        (rejected_customer customer over, cache')

  forwarded_headers :
      TextFunctions → Option (String × String × VirtualKey W) → Dict String → Dict String
  forwarded_headers t none headers = headers
  forwarded_headers t (some (name, key, k)) headers = swap_key t name key headers

  refused_or : {A : Type 0} → Option (Rejection W) → Gated W A → Gated W A
  refused_or none g = g
  refused_or (some x) g = refuse x

  -- the checks after the virtual key's
  unfoldable pub after_key :
      TextFunctions
      → Option (ApiKeyBudgetsConfig W)
      → Option (CustomerBudgetsConfig W)
      → Request
      → World W
      → Caches W
      → Gated W (Option (String × String × VirtualKey W))
      → Gated W (Dict String × Dict String) × Caches W
  unfolding key_tags label_tags forwarded_headers refused_or
  after_key t key_budgets customer_budgets r w caches (refuse x) = (refuse x, caches)
  after_key t key_budgets customer_budgets r w caches (pass swap) =
      let label = request_label t r w in
      let tags = label_tags label (key_tags swap r.tags) in
      let (capped, keys) = label_gate key_budgets label r w caches.keys in
      let (over, customers) =
        customer_gate customer_budgets (lookup "customer" tags) r w caches.customers in
      let headers =
        forwarded_headers t swap (clean_request_headers t r.headers_to_strip r.headers) in
      (
        refused_or capped (refused_or over (pass (headers, tags))),
        record { keys = keys; customers = if is_some capped then caches.customers else customers },
      )

  -- the gate: the headers to forward with the tags, or an answer
  unfoldable pub admit :
      TextFunctions
      → Option (ApiKeyBudgetsConfig W)
      → Option (CustomerBudgetsConfig W)
      → Request
      → World W
      → Caches W
      → Gated W (Dict String × Dict String) × Caches W
  admit t key_budgets customer_budgets r w caches =
      after_key t key_budgets customer_budgets r w caches (virtual_gate t r w)
