-- ===== src/Budget/Engine/Within.antt =====
-- Over any run of requests, reservations keep every counter of a policy within its limit.
use mathlib.Core.List.{Memᴰ}
use mathlib.Core.List.Memᴰ.{head, tail}
use burnlens.Prelude.{
  ℕ, ◌≡◌, refl, inl, inr, String, Bool, true, false, ◌&&◌, not, Option, some, List, [], ◌∷◌, map,
  ◌==◌, sym, ◌∙◌, ap, Bool-cases, Option-cases, if◌then◌else◌,
}
use mathlib.Core.Path.{subst}
use burnlens.Prelude.Lists.{
  All, filter, HasDistinct, HasDistinct-filter, HasDistinct-unique, mem-of-filter,
}
use burnlens.Float.{Float, nought}
use burnlens.Json.{Json}
use burnlens.Cost.Pricing.{PricingFiles, Registry}
use burnlens.Cost.Calculator.{is_model_priced}
use burnlens.Budget.Policy.{BudgetPolicy, DateTime, RequestContext, period_start, matches_policy}
use burnlens.Budget.Engine.{
  Counters, Matched, Config, is_key, spend_of, Reservation, allowed, violated, unpriced, reserve,
  decide, estimate_cost, matching_policies, check_and_reserve,
}
use burnlens.Budget.Engine.Reserve.{
  HasDistinctNames, key_name, Fits, reserved, Reserves, reserve-Reserves,
}

module _ {W : Type 0} where
  abbrev pub policy_name : BudgetPolicy W → String
  policy_name p = p.name

  module _ (policies : List (BudgetPolicy W)) where
    -- Each matched policy is one of the list.
    abbrev AllFrom : List (Matched W) → Type 0
    AllFrom = All (λ m. Memᴰ m.0 policies)

  matched_distinct :
      (start : BudgetPolicy W → ℕ) (ps : List (BudgetPolicy W))
      → HasDistinct policy_name ps
      → HasDistinctNames (map (λ p. (p, start p)) ps)
  matched_distinct start [] h = tt
  matched_distinct start (p ∷ ps) h = (names ps h.0, matched_distinct start ps h.1)
    where
      names :
          (qs : List (BudgetPolicy W))
          → All (λ q. (p.name == q.name) ≡ false) qs
          → All {A = Matched W} (λ k. (p.name == k.0.name) ≡ false) (map (λ q. (q, start q)) qs)
      names [] a = tt
      names (q ∷ qs) a = (a.0, names qs a.1)

  matched_from :
      (start : BudgetPolicy W → ℕ) {m : Matched W} (ps : List (BudgetPolicy W))
      → Memᴰ m (map (λ p. (p, start p)) ps)
      → Memᴰ m.0 ps
  matched_from start [] h = elim h [ ]
  matched_from start (p ∷ ps) (head e) = head (ap (λ m. m.0) e)
  matched_from start (p ∷ ps) (tail h) = tail (matched_from start ps h)

module _ {W : Type 0} ⦃f : Float W⦄ where
  -- Every counter that carries a policy's name, in whatever period, is at most the policy's limit.
  abbrev pub IsWithin : List (BudgetPolicy W) → Counters W → Type 0
  IsWithin policies rows =
      (p : BudgetPolicy W) (s : ℕ) (v : W)
      → Memᴰ p policies
      → rows p.name s ≡ some v
      → f.lt p.limit_usd v ≡ false

  module _ (initial : BudgetPolicy W → ℕ → W) (policies : List (BudgetPolicy W))
      (distinct : HasDistinct policy_name policies) where
    reserved-IsWithin :
        (cost : W) (rows : Counters W) (ms : List (Matched W))
        → ((m : Matched W) → Memᴰ m ms → Memᴰ m.0 policies)
        → All (Fits initial cost rows) ms
        → IsWithin policies rows
        → IsWithin policies (reserved initial cost rows ms)
    reserved-IsWithin cost rows [] from fits h p s v mem e = h p s v mem e
    reserved-IsWithin cost rows (m ∷ ms) from fits h p s v mem e =
        elim (Bool-cases (is_key m.0.name m.1 p.name s)) [
          | inl same ↦
              let value : f.add (spend_of initial m rows) cost ≡ v = cc (chosen true same e) in
              let policy : m.0 ≡ p =
                HasDistinct-unique policy_name policies distinct (from m (head refl)) mem
                  (key_name m.0.name m.1 p.name s same) in
              subst (λ q. f.lt q.limit_usd v ≡ false) policy
                (subst (λ w. f.lt m.0.limit_usd w ≡ false) value fits.0)
          | inr other ↦
              reserved-IsWithin cost rows ms (λ k i. from k (tail i)) fits.1 h p s v mem
                (chosen false other e)
        ]
      where
        chosen :
            (b : Bool)
            → is_key m.0.name m.1 p.name s ≡ b
            → reserved initial cost rows (m ∷ ms) p.name s ≡ some v
            → (if b
                then some (f.add (spend_of initial m rows) cost)
                else reserved initial cost rows ms p.name s)
              ≡ some v
        chosen b same e = rw (← same) e

    -- A reservation keeps the counters within the limits, and so does a refusal.
    reserve-IsWithin :
        (cost : W) (rows : Counters W) (ms : List (Matched W))
        → ((m : Matched W) → Memᴰ m ms → Memᴰ m.0 policies)
        → HasDistinctNames ms
        → IsWithin policies rows
        → IsWithin policies (reserve initial cost ms rows).1
    reserve-IsWithin cost rows ms from names h =
        settle (reserve initial cost ms rows) (reserve-Reserves initial cost ms rows names)
      where
        settle :
            (r : Reservation W × Counters W)
            → Reserves initial cost rows ms r
            → IsWithin policies r.1
        settle (allowed c used, t) (_, _, fits, table) = λ p s v mem e.
            reserved-IsWithin cost rows ms from fits h p s v mem (sym (table p.name s) ∙ e)
        settle (violated q c, t) (_, same, _, _, _, _) = rw same h
        settle (unpriced _, t) impossible = absurd impossible

    decide-IsWithin :
        (block priced : Bool) (model : String) (cost : W) (rows : Counters W)
        (ms : List (Matched W))
        → ((m : Matched W) → Memᴰ m ms → Memᴰ m.0 policies)
        → HasDistinctNames ms
        → IsWithin policies rows
        → IsWithin policies (decide initial block priced model cost ms rows).1
    unfolding decide
    decide-IsWithin block priced model cost rows [] from names h = h
    decide-IsWithin block priced model cost rows (m ∷ ms) from names h =
        elim (Bool-cases (f.le cost nought)) [
          | inr e ↦ rw e (reserve-IsWithin cost rows (m ∷ ms) from names h)
          | inl e ↦ rw e (free (block && not priced))
        ]
      where
        free :
            (b : Bool)
            → IsWithin policies
                (if◌then◌else◌ {A = Reservation W × Counters W} b
                  (unpriced model, rows)
                  (allowed nought [], rows)).1
        free true = h
        free false = h

-- A request as `check_and_reserve` is called for it.
pub record Request : Type 0 where
  pub provider : String
  pub model : String
  pub body : Option Json
  pub context : RequestContext
  pub now : DateTime

module _ {W : Type 0} ⦃f : Float W⦄ (registry : Registry) (files : PricingFiles W) (today : ℕ)
    (str_len : Json → ℕ) (initial : BudgetPolicy W → ℕ → W) (config : Config W) where
  module _ (distinct : HasDistinct policy_name config.budget_policies) where
    pub check_and_reserve-IsWithin :
        (r : Request) (rows : Counters W)
        → IsWithin config.budget_policies rows
        → IsWithin config.budget_policies
            (check_and_reserve registry files today str_len initial config r.provider r.model r.body
              r.context r.now rows).1
    unfolding check_and_reserve matching_policies
    check_and_reserve-IsWithin r rows h =
        elim (Option-cases
          (estimate_cost registry files today str_len initial config r.provider r.model r.body)) [
            | inl e ↦ rw (e, check_and_reserve) h
            | inr (cost, e) ↦
                rw (e, check_and_reserve)
                  (decide-IsWithin initial config.budget_policies distinct
                    config.block_unpriced_models
                    (is_model_priced registry files today r.provider r.model) r.model cost rows
                    (map (λ p. (p, period_start p.period r.now)) matched)
                    (λ m i.
                      mem-of-filter applies config.budget_policies
                        (matched_from (λ p. period_start p.period r.now) matched i))
                    (matched_distinct (λ p. period_start p.period r.now) matched
                      (HasDistinct-filter policy_name applies config.budget_policies distinct))
                    h)
          ]
      where
        applies : BudgetPolicy W → Bool
        applies p = matches_policy p r.model r.context

        matched : List (BudgetPolicy W)
        matched = filter applies config.budget_policies
