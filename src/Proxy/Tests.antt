-- ===== src/Proxy/Tests.antt =====
-- The theorems on the gate at work: a team's virtual key for one model, and an API key with a cap.
use mathlib.Core.List.Memᴰ.{head}
use burnlens.Prelude.{
  Option, ◌⊎◌, ℕ, ◌≡◌, ◌↔◌, refl, String, true, false, none, some, List, [], ◌∷◌, ◌==◌,
  if◌then◌else◌, leb,
}
use burnlens.Prelude.Dict.{Dict}
use burnlens.Float.Micro.{micro}
use burnlens.Proxy.Keys.{
  VirtualKey, KeyRow, issued, stored_models, is_incomplete, is_live, issue_key, resolve, revoke_key,
  is_revocable, looks_like_virtual_key,
}
use burnlens.Proxy.Keys.Laws.{issue_key-resolve, revoke_key-resolve}
use burnlens.Proxy.Headers.{
  TextFunctions, extract_auth_token, extract_api_key_hash, lower_headers, clean_request_headers,
  swap_key, auth_value,
}
use burnlens.Proxy.Headers.Swap.{swap_key-only}
use burnlens.Proxy.Budgets.{ApiKeyBudgetsConfig, daily_cap_for, get_today_spend, enforce_daily_cap}
use burnlens.Proxy.Models.{Request, World, Caches, is_unpriced}
use burnlens.Cost.Pricing.{
  PricingFiles, Registry, get_model_pricing, resolve_pricing_key, best_prefix,
}
use burnlens.Cost.Calculator.{is_model_priced, resolve_pricing, resolve_vendor}
use burnlens.Proxy.KeyGate.{virtual_gate, key_gate, allows, team_spent}
use burnlens.Proxy.Gate.{request_label, label_gate, customer_gate, after_key, admit}
use burnlens.Proxy.Router.{
  RoutingConfig, Spends, get_downgrade_model, get_team_spend, resolve_budget, remaining_usd,
  remaining_pct, by_thresholds, decide_route,
}
use burnlens.Proxy.Router.Downgrades.{DowngradesTo, IsShort, decide_route_iff}
use burnlens.Proxy.Gate.Safety.{admit-capped}

abbrev text : TextFunctions
text = record {
  lower = λ s. s;
  strip = λ s. s;
  remove_bearer = λ s. if s == "Bearer bl-sk-1" then "bl-sk-1" else s;
  sha256 = λ s. s;
}

abbrev team_key : VirtualKey ℕ
team_key = record {
  label = "search";
  team = "search";
  provider = "openai";
  upstream_key_env = "OPENAI_KEY";
  allowed_models = some ("gpt-4o" ∷ []);
  monthly_budget_usd = some 10000000;
  token_prefix = "bl-sk-1";
}

abbrev row : KeyRow ℕ
row = record { key = team_key; token_hash = "bl-sk-1"; revoked_at = none }

issue_key-resolve_example :
    let (result, rows) = issue_key team_key "bl-sk-1" "h" [] in
    (result ≡ issued "bl-sk-1" "bl-sk-1")
    × (resolve "h" rows
        ≡ some (record team_key { allowed_models = stored_models team_key.allowed_models }))
unfolding is_incomplete resolve
issue_key-resolve_example = issue_key-resolve team_key "bl-sk-1" "h" [] refl refl refl

-- another key of the team, which stays
abbrev spare : KeyRow ℕ
spare = record row { key = record team_key { label = "spare" }; token_hash = "bl-sk-2" }

revoke_key-resolve_example : ("spare" == "search") ≡ false
unfolding revoke_key is_revocable resolve is_live
revoke_key-resolve_example =
    revoke_key-resolve "search" "bl-sk-2" 5 (row ∷ spare ∷ []) spare.key refl

swapped_header : "Bearer sk-real" ≡ auth_value "authorization" "sk-real"
unfolding swap_key auth_value
swapped_header =
    swap_key-only text "authorization" "sk-real" (("authorization", "Bearer bl-sk-1") ∷ [])
      ("authorization", "Bearer sk-real") (head refl) refl

abbrev call : Request
call = record {
  provider = "openai";
  model = "gpt-4o";
  unpriced = false;
  headers = ("authorization", "Bearer bl-sk-1") ∷ ("host", "localhost") ∷ [];
  tags = [];
  headers_to_strip = [];
}

abbrev world : World ℕ
world = record {
  keys = some (row ∷ []);
  team_spend = some (("search", 4000000) ∷ []);
  environ = ("OPENAI_KEY", "sk-real") ∷ [];
  label_of = λ h. if h == "bl-sk-1" then some "laptop" else none;
  key_spend = λ label. some 1000000;
  customer_spend = none;
  key_clock = (100000000, 101000000);
  customer_clock = (100000000, 101000000);
}

abbrev caches : Caches ℕ
caches = record { keys = []; customers = [] }

abbrev to_provider : Dict String
to_provider = ("authorization", "Bearer sk-real") ∷ []

abbrev tags : Dict String
tags = ("team", "search") ∷ ("key_label", "laptop") ∷ []

abbrev caps : ApiKeyBudgetsConfig ℕ
caps = record {
  keys = ("laptop", record { daily_usd = some 2000000; monthly_usd = none }) ∷ [];
  default = none;
}

abbrev files : PricingFiles ℕ
files =
    (
      "openai",
      (
        "gpt-4o",
        record {
          rates = record {
            input_per_million = some 3000000;
            output_per_million = some 15000000;
            reasoning_per_million = none;
            cache_read_per_million = none;
            cache_write_per_million = none;
            audio_input_per_million = none;
            audio_output_per_million = none;
            unit_prices = none;
          };
          scheduled = [];
          tiered = none;
        },
      )
          ∷ [],
    )
    ∷ []

abbrev registry : Registry
registry = ("openai", record { pricing_key = "openai"; prompt_tokens_include_cache = true }) ∷ []

price_known : call.unpriced ≡ is_unpriced registry files 1 true call.provider call.model
unfolding is_unpriced is_model_priced resolve_pricing resolve_vendor get_model_pricing
    resolve_pricing_key best_prefix
price_known = refl

admit-capped_example :
    (true ≡ true → is_model_priced registry files 1 "openai" "gpt-4o" ≡ true)
    × ((◌≡◌ {A = Option ℕ} (some 1000000) none)
        ⊎ ((spent : ℕ) × (◌≡◌ {A = Option ℕ} (some 1000000) (some spent))
            × (leb 2000000 spent ≡ false)))
unfolding admit after_key virtual_gate extract_auth_token lower_headers looks_like_virtual_key
    resolve is_live key_gate allows team_spent label_gate customer_gate request_label
    extract_api_key_hash enforce_daily_cap get_today_spend daily_cap_for clean_request_headers
    swap_key auth_value
admit-capped_example =
    admit-capped text (some caps) none call world caches registry files 1 true caps "laptop" 2000000
      to_provider tags price_known refl refl refl refl refl

-- The team has spent 9 dollars of 10.
abbrev routing : RoutingConfig ℕ
routing = record {
  budget_downgrade = true;
  downgrade_threshold_pct = 20000000;
  downgrade_threshold_usd = 5000000;
  customer_budgets = record { default = none; customers = [] };
  team_limits = ("search", 10000000) ∷ [];
  global_usd = none;
  budget_limit_usd = none;
}

abbrev spends : Spends ℕ
spends = record {
  by_customer = none;
  by_team = some (("search", 9000000) ∷ []);
  clock = (100000000, 101000000);
}

-- The model that the key allows is replaced by one that it does not allow.
routed_away :
    ((decide_route (λ s. s) "gpt-4o" (some "search") none routing spends []).0.routed_model
      ≡ "gpt-4o-mini")
    × (allows team_key.allowed_models "gpt-4o-mini" ≡ false)
unfolding decide_route resolve_budget get_team_spend by_thresholds remaining_usd remaining_pct
    get_downgrade_model allows
routed_away = (refl, refl)

decide_route_iff_example :
    DowngradesTo
      (λ s. s)
      "gpt-4o"
      routing
      (decide_route (λ s. s) "gpt-4o" (some "search") none routing spends []).0
      "gpt-4o-mini"
    ↔ ((routing.budget_downgrade ≡ true)
        × IsShort
            (λ s. s)
            "gpt-4o"
            routing
            (resolve_budget (some "search") none routing spends []).0
            "gpt-4o-mini")
decide_route_iff_example =
    decide_route_iff (λ s. s) "gpt-4o" routing (some "search") none spends [] "gpt-4o-mini"
