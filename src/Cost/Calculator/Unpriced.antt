-- ===== src/Cost/Calculator/Unpriced.antt =====
-- A model that is not in the pricing data costs nothing, and is recorded as unpriced.
use burnlens.Prelude.{
  ℕ, ◌≡◌, refl, String, true, false, ◌&&◌, ◌||◌, ◌==◌, eq_iff, arith, sym, ◌∙◌, and_left, and_right,
  false≢true, inl, inr, Option-cases, Bool-cases,
}
use burnlens.Float.{Float, nought}
use burnlens.Cost.Pricing.{PricingFiles, Registry}
use burnlens.Cost.Calculator.{
  TokenUsage, unpriced, resolve_pricing, is_model_priced, pricing_class_for, Seen, seen_before,
  add_seen, calculate_cost,
}

seen_before-same :
    (p m q n : String) (seen : Seen)
    → (p == q && m == n) ≡ true
    → seen_before (p, m) seen ≡ seen_before (q, n) seen
seen_before-same p m q n seen h =
    rw (
      (eq_iff p q).0 (and_left (p == q) (m == n) h),
      (eq_iff m n).0 (and_right (p == q) (m == n) h),
    )

seen_before-add_seen :
    (p m q n : String) (seen : Seen)
    → seen_before (q, n) (add_seen (p, m) seen) ≡ ((p == q && m == n) || seen_before (q, n) seen)
unfolding add_seen
seen_before-add_seen p m q n seen = elim (Bool-cases (seen_before (p, m) seen)) [
  | inr new ↦ rw new (unfold seen_before in refl)
  | inl old ↦ rw old (elim (Bool-cases (p == q && m == n)) [
    | inl same ↦ rw same (sym (seen_before-same p m q n seen same) ∙ old)
    | inr other ↦ rw other
  ])
]

module _ {W : Type 0} ⦃f : Float W⦄ (registry : Registry) (files : PricingFiles W) (today : ℕ) where
  -- The set of unpriced models after a call holds what it held before, and the call's own pair
  -- exactly when the request is classed as unpriced; then the cost is zero.
  pub calculate_cost_records_unpriced :
      (provider model source : String) (usage : TokenUsage W) (seen : Seen) (q n : String)
      → let class = pricing_class_for registry files today provider model source in
        let (cost, seen') = calculate_cost registry files today provider model usage seen in
        (class ≡ unpriced
          → (cost ≡ nought)
            × (seen_before (q, n) seen'
                ≡ ((provider == q && model == n) || seen_before (q, n) seen)))
        × (¬ (class ≡ unpriced) → seen' ≡ seen)
  unfolding calculate_cost pricing_class_for is_model_priced
  calculate_cost_records_unpriced provider model source usage seen q n =
      elim (Option-cases (resolve_pricing registry files today provider model)) [
        | inl e ↦
            rw (e, calculate_cost)
              ((λ _. (refl, seen_before-add_seen provider model q n seen)), λ h. absurd (h refl))
        | inr (p, e) ↦ rw (e, calculate_cost) (ground arith)
      ]

  pub calculate_cost_unpriced :
      (provider model : String) (usage : TokenUsage W) (seen : Seen)
      → is_model_priced registry files today provider model ≡ false
      → (calculate_cost registry files today provider model usage seen).0 ≡ nought
  unfolding is_model_priced calculate_cost
  calculate_cost_unpriced provider model usage seen h =
      elim (Option-cases (resolve_pricing registry files today provider model)) [
        | inl e ↦ rw (e, calculate_cost)
        | inr (p, e) ↦ absurd (false≢true (sym h ∙ rw e))
      ]
