-- ===== src/Proxy/Gate/Safety.antt =====
-- What a request has passed that is forwarded.
use burnlens.Prelude.{
  ◌≡◌, refl, sym, ap, ◌∙◌, String, true, false, Option, none, some, ◌==◌, Bool-cases, inl, inr, ◌⊎◌,
  ℕ, Bool, not, ◌&&◌, Option-cases, arith,
}
use burnlens.Prelude.Dict.{Dict, lookup}
use burnlens.Float.{Float}
use burnlens.Cost.Pricing.{PricingFiles, Registry}
use burnlens.Cost.Calculator.{is_model_priced}
use burnlens.Proxy.Keys.{VirtualKey}
use burnlens.Proxy.Headers.{TextFunctions, clean_request_headers}
use burnlens.Proxy.Budgets.{
  ApiKeyBudgetsConfig, CustomerBudgetsConfig, SpendCache, daily_cap_for, get_today_spend,
  enforce_daily_cap,
}
use burnlens.Proxy.Models.{
  Rejection, Gated, refuse, pass, pass_injective, Request, World, Caches, is_unpriced,
}
use burnlens.Proxy.KeyGate.{virtual_gate}
use burnlens.Proxy.Gate.{
  label_tags, key_tags, request_label, rejected_key, label_gate, customer_gate, forwarded_headers,
  refused_or, after_key, admit,
}

module _ {W : Type 0} ⦃f : Float W⦄ where
  refused_or-pass :
      {A : Type 0} (x y : Option (Rejection W)) (a b : A)
      → refused_or x (refused_or y (pass a)) ≡ pass b
      → (x ≡ none) × (y ≡ none) × (a ≡ b)
  unfolding refused_or
  refused_or-pass none none a b h = (refl, refl, pass_injective _ refl h)
  refused_or-pass none (some y) a b h = cc
  refused_or-pass (some x) y a b h = cc

  rejected_key-none :
      (label : String) (breach : Option (W × W)) → rejected_key label breach ≡ none → breach ≡ none
  unfolding rejected_key
  rejected_key-none label none h = refl
  rejected_key-none label (some b) h = cc

  label_gate-none :
      (r : Request) (w : World W) (c : ApiKeyBudgetsConfig W) (label : String) (cap : W)
      (cache : SpendCache W)
      → (label == "") ≡ false
      → daily_cap_for c label ≡ some cap
      → (label_gate (some c) (some label) r w cache).0 ≡ none
      → (r.unpriced ≡ false)
        × ((enforce_daily_cap c label (w.key_spend label) w.key_clock.0 w.key_clock.1 cache).0
            ≡ none)
  unfolding label_gate
  label_gate-none r w c label cap cache named capped h = elim (Bool-cases r.unpriced) [
    | inl no_price ↦ cc (rw (named, no_price, capped) at h)
    | inr priced ↦ (priced, rejected_key-none label _ (rw (named, priced) at h))
  ]

  below_cap :
      (c : ApiKeyBudgetsConfig W) (label : String) (cap spent : W) (query : Option W)
      (now later : W) (cache : SpendCache W)
      → daily_cap_for c label ≡ some cap
      → (get_today_spend label query now later cache).0 ≡ some spent
      → (enforce_daily_cap c label query now later cache).0 ≡ none
      → f.le cap spent ≡ false
  unfolding enforce_daily_cap
  below_cap c label cap spent query now later cache capped got h =
      elim (Bool-cases (f.le cap spent)) [
        | inl over ↦ cc (rw (capped, got, over) at h)
        | inr below ↦ below
      ]

module _ {W : Type 0} ⦃f : Float W⦄ (t : TextFunctions)
    (key_budgets : Option (ApiKeyBudgetsConfig W))
    (customer_budgets : Option (CustomerBudgetsConfig W)) (r : Request) (w : World W)
    (caches : Caches W) where
  after_key-pass :
      (g : Gated W (Option (String × String × VirtualKey W))) (headers tags : Dict String)
      → (after_key t key_budgets customer_budgets r w caches g).0 ≡ pass (headers, tags)
      → (swap : Option (String × String × VirtualKey W)) × (g ≡ pass swap)
        × ((label_gate key_budgets (request_label t r w) r w caches.keys).0 ≡ none)
        × (headers
            ≡ forwarded_headers t swap (clean_request_headers t r.headers_to_strip r.headers))
  unfolding after_key
  after_key-pass (refuse x) headers tags h = cc
  after_key-pass (pass swap) headers tags h =
      let label = request_label t r w in
      let sent = label_tags label (key_tags swap r.tags) in
      let to = forwarded_headers t swap (clean_request_headers t r.headers_to_strip r.headers) in
      let (uncapped, within, same) =
        refused_or-pass (label_gate key_budgets label r w caches.keys).0
          (customer_gate customer_budgets (lookup "customer" sent) r w caches.customers).0
          (to, sent) (headers, tags) h in
      (swap, refl, uncapped, ap (λ p. p.0) (sym same))

  -- A request whose key has a label with a daily cap is forwarded only if its model is priced,
  -- where the configuration asks for a price, and the day's spend, cached or queried, is below the
  -- cap or could not be read.
  pub admit-capped :
      (registry : Registry) (files : PricingFiles W) (today : ℕ) (block_unpriced_models : Bool)
      (c : ApiKeyBudgetsConfig W) (label : String) (cap : W) (headers tags : Dict String)
      → r.unpriced ≡ is_unpriced registry files today block_unpriced_models r.provider r.model
      → key_budgets ≡ some c
      → request_label t r w ≡ some label
      → (label == "") ≡ false
      → daily_cap_for c label ≡ some cap
      → (admit t key_budgets customer_budgets r w caches).0 ≡ pass (headers, tags)
      → let spend =
          (get_today_spend label (w.key_spend label) w.key_clock.0 w.key_clock.1 caches.keys).0 in
        (block_unpriced_models ≡ true
          → is_model_priced registry files today r.provider r.model ≡ true)
        × ((spend ≡ none) ⊎ ((spent : W) × (spend ≡ some spent) × (f.le cap spent ≡ false)))
  unfolding admit is_unpriced
  admit-capped registry files today block_unpriced_models c label cap headers tags flag set
        registered named capped h =
      let (swap, passed, uncapped, _) = after_key-pass (virtual_gate t r w) headers tags h in
      let (priced, unbroken) =
        label_gate-none r w c label cap caches.keys named capped
          (rw (set, registered) at uncapped) in
      let query = w.key_spend label in
      (
        λ asked.
            both block_unpriced_models (is_model_priced registry files today r.provider r.model)
              (sym flag ∙ priced) asked,
        elim (Option-cases
            (get_today_spend label query w.key_clock.0 w.key_clock.1 caches.keys).0) [
              | inl unread ↦ inl unread
              | inr (spent, got) ↦ inr (
                spent,
                got,
                below_cap c label cap spent query w.key_clock.0 w.key_clock.1 caches.keys capped got
                    unbroken,
              )
            ],
      )
    where
      both : (block priced : Bool) → (block && not priced) ≡ false → block ≡ true → priced ≡ true
      both block priced h k = ground arith
