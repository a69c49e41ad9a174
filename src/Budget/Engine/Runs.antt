-- ===== src/Budget/Engine/Runs.antt =====
-- Reservations and reconciliations as the proxy makes them: `check_and_reserve` before a request is
-- forwarded, `reconcile` after its response, of other requests in between.
use burnlens.Prelude.{
  ℕ, ◌≡◌, refl, String, true, false, Option, none, some, List, [], ◌∷◌, Bool-cases, some_injective,
  inl, inr,
}
use mathlib.Core.Path.{subst}
use mathlib.Core.Option
use burnlens.Prelude.Lists.{HasDistinct}
use burnlens.Float.{Float, nought}
use burnlens.Json.{Json}
use burnlens.Cost.Pricing.{PricingFiles, Registry}
use burnlens.Budget.Policy.{BudgetPolicy}
use burnlens.Budget.Engine.{
  Counters, Matched, Config, is_key, add_spend, add_all, allowed, check_and_reserve, reconcile,
}
use burnlens.Budget.Engine.Within.{policy_name, IsWithin, Request, check_and_reserve-IsWithin}

-- Two laws of doubles, which hold for infinities and NaN as well: what is not above zero does not
-- take a sum above a limit.
pub record HasDifferences (W : Type 0) ⦃f : Float W⦄ : Type 0 where
  pub sub_not_above : (a b : W) → f.le a b ≡ true → f.lt nought (f.sub a b) ≡ false
  pub add_not_above :
      (limit v d : W)
      → f.lt limit v ≡ false
      → f.lt nought d ≡ false
      → f.lt limit (f.add v d) ≡ false

module _ {W : Type 0} ⦃f : Float W⦄ (config : Config W) where
  -- What happens to the counters: a reservation, by whatever prices, request log and time, or the
  -- reconciliation of a reservation with an actual cost of at most its estimate.
  pub data Step : Counters W → Counters W → Type 0 where
    requested :
        (registry : Registry) (files : PricingFiles W) (today : ℕ) (str_len : Json → ℕ)
        (initial : BudgetPolicy W → ℕ → W) (r : Request) (rows : Counters W)
        → Step rows
            (check_and_reserve registry files today str_len initial config r.provider r.model r.body
              r.context r.now rows).1
    reconciled :
        (actual estimated : W) (ms : List (Matched W)) (rows : Counters W)
        → f.le actual estimated ≡ true
        → Step rows (reconcile actual (allowed estimated ms) rows)

  pub data Reach (rows : Counters W) : Counters W → Type 0 where
    here : Reach rows rows
    next : {t u : Counters W} → Reach rows t → Step t u → Reach rows u

module _ {W : Type 0} ⦃f : Float W⦄ (laws : HasDifferences W)
    (policies : List (BudgetPolicy W)) where
  add_spend-IsWithin :
      (d : W) (name : String) (start : ℕ) (rows : Counters W)
      → f.lt nought d ≡ false
      → IsWithin policies rows
      → IsWithin policies (add_spend d name start rows)
  unfolding add_spend
  add_spend-IsWithin d name start rows low h p s v mem e =
      elim (Bool-cases (is_key name start p.name s)) [
        | inr other ↦ h p s v mem (rw other at e)
        | inl same ↦ added (rows p.name s) (λ w. h p s w mem) (rw same at e)
      ]
    where
      added :
          (o : Option W)
          → ((w : W) → o ≡ some w → f.lt p.limit_usd w ≡ false)
          → Option.map (λ w. f.add w d) o ≡ some v
          → f.lt p.limit_usd v ≡ false
      added none below e = cc
      added (some w) below e =
          subst (λ u. f.lt p.limit_usd u ≡ false) (some_injective e)
            (laws.add_not_above p.limit_usd w d (below w refl) low)

  add_all-IsWithin :
      (d : W) (ms : List (Matched W)) (rows : Counters W)
      → f.lt nought d ≡ false
      → IsWithin policies rows
      → IsWithin policies (add_all d ms rows)
  unfolding add_all
  add_all-IsWithin d [] rows low h = h
  add_all-IsWithin d ((policy, start) ∷ ms) rows low h =
      add_all-IsWithin d ms _ low (add_spend-IsWithin d policy.name start rows low h)

  reconcile-IsWithin :
      (actual estimated : W) (ms : List (Matched W)) (rows : Counters W)
      → f.le actual estimated ≡ true
      → IsWithin policies rows
      → IsWithin policies (reconcile actual (allowed estimated ms) rows)
  unfolding reconcile
  reconcile-IsWithin actual estimated [] rows cheap h = h
  reconcile-IsWithin actual estimated (m ∷ ms) rows cheap h =
      elim (Bool-cases (f.le estimated nought)) [
        | inl free ↦ rw free h
        | inr charged ↦ rw charged (
            add_all-IsWithin (f.sub actual estimated) (m ∷ ms) rows
              (laws.sub_not_above actual estimated cheap) h)
      ]

module _ {W : Type 0} ⦃f : Float W⦄ (laws : HasDifferences W) (config : Config W) where
  -- With policies of distinct names, reservations and reconciliations, in whatever order they follow
  -- one another, each as a whole, keep every policy's counters at or below the policy's limit, if they
  -- were so before and no request costs more than its estimate.
  pub Reach-IsWithin :
      HasDistinct policy_name config.budget_policies
      → {rows after : Counters W} → Reach config rows after
      → IsWithin config.budget_policies rows
      → IsWithin config.budget_policies after
  Reach-IsWithin distinct here h = h
  Reach-IsWithin distinct (next reach step) h = kept step (Reach-IsWithin distinct reach h)
    where
      kept :
          {t u : Counters W}
          → Step config t u
          → IsWithin config.budget_policies t
          → IsWithin config.budget_policies u
      kept (requested registry files today str_len initial r rows) k =
          check_and_reserve-IsWithin registry files today str_len initial config distinct r rows k
      kept (reconciled actual estimated ms rows cheap) k =
          reconcile-IsWithin laws config.budget_policies actual estimated ms rows cheap k
