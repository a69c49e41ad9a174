-- ===== src/Cost/Pricing/Tiers.antt =====
-- Which rate change is in force: the loops of `_apply_scheduled` and `apply_tiered`.
use burnlens.Prelude.{ℕ, ◌≡◌, refl, Bool, Option, none, some, List, [], ◌∷◌, ltb, leb, or_else}
use burnlens.Prelude.Best.{IsBest, best, best-IsBest, ltb_up, ltb_down, leb_up, leb_down}
use burnlens.Cost.Pricing.{
  Tier, Scheduled, Pricing, higher_of, pick_tier, merge_tier, apply_tiered, later_of,
  pick_scheduled, merge_scheduled, apply_scheduled,
}

module _ {W : Type 0} where
  -- the tier's threshold is exceeded
  abbrev pub is_over : ℕ → Tier W → Bool
  is_over n t = ltb t.over n

  -- the dated change has taken effect
  abbrev pub is_due : ℕ → Scheduled W → Bool
  is_due today t = leb t.effective today

  pick_tier-best :
      (n : ℕ) (tiers : List (Tier W)) (active : Option (Tier W))
      → pick_tier n tiers active ≡ best (is_over n) (λ t. t.over) ltb tiers active
  unfolding pick_tier best higher_of
  pick_tier-best n [] active = refl
  pick_tier-best n (t ∷ tiers) none = pick_tier-best n tiers _
  pick_tier-best n (t ∷ tiers) (some a) = pick_tier-best n tiers _

  pick_scheduled-best :
      (today : ℕ) (tiers : List (Scheduled W)) (active : Option (Scheduled W))
      → pick_scheduled today tiers active ≡ best (is_due today) (λ t. t.effective) leb tiers active
  unfolding pick_scheduled best later_of
  pick_scheduled-best today [] active = refl
  pick_scheduled-best today (t ∷ tiers) none = pick_scheduled-best today tiers _
  pick_scheduled-best today (t ∷ tiers) (some a) = pick_scheduled-best today tiers _

  -- The rates that a request of `n` input tokens is billed at are the entry's own, overridden by
  -- the tier with the highest threshold among those that `n` exceeds, or by none if `n` exceeds no
  -- threshold.
  pub apply_tiered_highest :
      (p : Pricing W) (n : ℕ)
      → (r : Option (Tier W)) × IsBest (is_over n) (λ t. t.over) (or_else p.tiered []) r
        × (apply_tiered p n ≡ merge_tier p.rates r)
  unfolding apply_tiered
  apply_tiered_highest p n =
      let tiers = or_else p.tiered [] in
      (
        best (is_over n) (λ t. t.over) ltb tiers none,
        best-IsBest (is_over n) (λ t. t.over) ltb ltb_up ltb_down tiers,
        rw (pick_tier-best n tiers none),
      )

  -- The entry on a day is the base, overridden by the latest dated change that has taken effect by
  -- then, or by none before the first; no dated change is left in it.
  pub apply_scheduled_latest :
      (p : Pricing W) (today : ℕ)
      → (r : Option (Scheduled W)) × IsBest (is_due today) (λ t. t.effective) p.scheduled r
        × (apply_scheduled p today ≡ merge_scheduled p r)
        × ((apply_scheduled p today).scheduled ≡ [])
  unfolding apply_scheduled merge_scheduled
  apply_scheduled_latest p today =
      let r = best (is_due today) (λ t. t.effective) leb p.scheduled none in
      let e = pick_scheduled-best today p.scheduled none in
      (
        r,
        best-IsBest (is_due today) (λ t. t.effective) leb leb_up leb_down p.scheduled,
        rw e,
        cleared (pick_scheduled today p.scheduled none),
      )
    where
      cleared : (r : Option (Scheduled W)) → (merge_scheduled p r).scheduled ≡ []
      cleared none = refl
      cleared (some t) = refl
