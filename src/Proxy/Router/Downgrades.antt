-- ===== src/Proxy/Router/Downgrades.antt =====
-- When the router changes the model.
use burnlens.Prelude.{
  ◌≡◌, ◌↔◌, refl, sym, ap, ◌∙◌, String, Bool, true, false, ◌||◌, Option, none, some, Bool-cases,
  inl, inr, false≢true, some_injective, if◌then◌else◌,
}
use burnlens.Float.{Float, nought}
use burnlens.Proxy.Budgets.{SpendCache}
use burnlens.Proxy.Router.{
  RoutingConfig, RouteDecision, RouteReason, budget_pct, budget_usd, Spends, get_downgrade_model,
  resolve_budget, to_cheaper, remaining_usd, remaining_pct, by_thresholds, on_budget, decide_route,
}

module _ {W : Type 0} ⦃f : Float W⦄ (strip_suffix : String → String) (model : String)
    (c : RoutingConfig W) where
  -- A threshold is above what remains of the budget.
  abbrev pub triggers : W → W → Bool
  triggers limit spent =
      f.lt (remaining_pct limit spent) c.downgrade_threshold_pct
      || f.lt (remaining_usd limit spent) c.downgrade_threshold_usd

  -- The budget is positive, little of it remains, and there is a cheaper model.
  pub record IsShort (budget : Option (W × Option W)) (cheaper : String) : Type 0 where
    pub limit : W
    pub spent : W
    pub known : budget ≡ some (limit, some spent)
    pub positive : f.le limit nought ≡ false
    pub triggered : triggers limit spent ≡ true
    pub mapped : get_downgrade_model strip_suffix model ≡ some cheaper

  -- The decision downgrades to a model.
  abbrev pub DowngradesTo : RouteDecision W → String → Type 0
  DowngradesTo d cheaper = (d.downgraded ≡ true) × (d.routed_model ≡ cheaper)

  to_cheaper_iff :
      (o : Option String) (reason : RouteReason) (usd pct : W) (cheaper : String)
      → DowngradesTo (to_cheaper o model reason usd pct) cheaper ↔ (o ≡ some cheaper)
  unfolding to_cheaper
  to_cheaper_iff none reason usd pct cheaper = (λ h. absurd (false≢true h.0), λ h. cc)
  to_cheaper_iff (some target) reason usd pct cheaper =
      (λ h. ap some h.1, λ h. (refl, some_injective h))

  by_thresholds_iff :
      (limit spent : W) (cheaper : String)
      → DowngradesTo (by_thresholds strip_suffix model c limit spent) cheaper
        ↔ ((triggers limit spent ≡ true) × (get_downgrade_model strip_suffix model ≡ some cheaper))
  unfolding by_thresholds
  by_thresholds_iff limit spent cheaper =
      let usd = remaining_usd limit spent in
      let pct = remaining_pct limit spent in
      let o = get_downgrade_model strip_suffix model in
      elim (Bool-cases (f.lt pct c.downgrade_threshold_pct)) [
        | inl low ↦
            let (to, from) = to_cheaper_iff o budget_pct usd pct cheaper in
            rw low (λ h. (refl, to h), λ h. from h.1)
        | inr high ↦ elim (Bool-cases (f.lt usd c.downgrade_threshold_usd)) [
          | inl low ↦
              let (to, from) = to_cheaper_iff o budget_usd usd pct cheaper in
              rw (high, low) (λ h. (refl, to h), λ h. from h.1)
          | inr enough ↦
              rw (high, enough) (λ h. absurd (false≢true h.0), λ h. absurd (false≢true h.0))
        ]
      ]

  on_budget_iff :
      (budget : Option (W × Option W)) (cheaper : String)
      → DowngradesTo (on_budget strip_suffix model c budget) cheaper ↔ IsShort budget cheaper
  unfolding on_budget
  on_budget_iff none cheaper = (λ h. absurd (false≢true h.0), λ s. cc s.known)
  on_budget_iff (some (limit, none)) cheaper = (λ h. absurd (false≢true h.0), λ s. cc s.known)
  on_budget_iff (some (limit, some spent)) cheaper = elim (Bool-cases (f.le limit nought)) [
    | inl empty ↦ rw empty (
      λ h. absurd (false≢true h.0),
      λ s. absurd (
          false≢true
            (sym s.positive ∙ sym (ap (λ b. f.le b.0 nought) (some_injective s.known)) ∙ empty)),
    )
    | inr positive ↦
        let (to, from) = by_thresholds_iff limit spent cheaper in
        rw positive (
          λ h. record {
            limit = limit;
            spent = spent;
            known = refl;
            positive = positive;
            triggered = (to h).0;
            mapped = (to h).1;
          },
          λ s.
              let known = some_injective s.known in
              from (
                ap (λ b. triggers b.0 spent) known
                    ∙ ap (λ x. triggers s.limit x) (some_injective (ap (λ b. b.1) known))
                    ∙ s.triggered,
                s.mapped,
              ),
        )
  ]

  choice_iff :
      (b : Bool) (x y : RouteDecision W × SpendCache W) (cheaper : String) (P : Type 0)
      → (DowngradesTo x.0 cheaper ↔ P)
      → y.0.downgraded ≡ false
      → DowngradesTo (if b then x else y).0 cheaper ↔ ((b ≡ true) × P)
  choice_iff true x y cheaper P h keeps = (λ d. (refl, h.0 d), λ m. h.1 m.1)
  choice_iff false x y cheaper P h keeps =
      (λ d. absurd (false≢true (sym keeps ∙ d.0)), λ m. absurd (false≢true m.0))

  -- The router changes the model to a cheaper one if and only if it may, the budget that applies to
  -- the request is known and positive, one of the two thresholds is above what remains of it, and the
  -- table names the cheaper model.
  pub decide_route_iff :
      (team customer : Option String) (w : Spends W) (cache : SpendCache W) (cheaper : String)
      → DowngradesTo (decide_route strip_suffix model team customer c w cache).0 cheaper
        ↔ ((c.budget_downgrade ≡ true) × IsShort (resolve_budget team customer c w cache).0 cheaper)
  unfolding decide_route
  decide_route_iff team customer w cache cheaper =
      choice_iff c.budget_downgrade _ _ cheaper _
        (on_budget_iff (resolve_budget team customer c w cache).0 cheaper) refl
