-- ===== src/Trust/Calculator/Levels.antt =====
-- What each level of autonomy stands for.
use burnlens.Prelude.{◌≤◌, ◌<◌, ◌≡◌, ◌↔◌, ◌⊎◌, String, true, false, arith}
use burnlens.Float.{Float, nought}
use burnlens.Trust.Calculator.{
  restricted, earned_autonomy, Evidence, clamp, is_sparse, level_of, calculate_score,
}

-- The order of doubles without NaN.
pub record IsOrdered (W : Type 0) ⦃f : Float W⦄ : Type 0 where
  pub le_refl : (a : W) → f.le a a ≡ true
  pub le_of_lt : (a b : W) → f.lt a b ≡ true → f.le a b ≡ true
  pub le_of_not_lt : (a b : W) → f.lt a b ≡ false → f.le b a ≡ true
  pub not_lt_self : (a : W) → f.lt a a ≡ false

module _ {W : Type 0} ⦃f : Float W⦄ where
  -- A clamped value lies between zero and the upper end, if that is not negative.
  pub clamp_bounds :
      (o : IsOrdered W) (hi x : W)
      → f.le nought hi ≡ true
      → (f.le nought (clamp hi x) ≡ true) × (f.le (clamp hi x) hi ≡ true)
  unfolding clamp
  clamp_bounds o hi x h = ground (
    arith,
    o.le_refl nought,
    o.le_refl hi,
    o.le_of_lt nought hi,
    o.le_of_lt nought x,
    o.le_of_lt x hi,
    o.le_of_not_lt hi x,
  )

  module _ (agent workspace : String) (e : Evidence W) where
    -- An agent has earned autonomy exactly when it has at least ten tasks and its score is not
    -- below 50 and not below 80; it is restricted exactly when it has fewer tasks or its score is
    -- below 50.
    level_iff :
        let p = calculate_score agent workspace e in
        ((p.autonomy_level ≡ earned_autonomy) ↔ (
          (10 ≤ e.total_tasks)
          × (f.lt p.trust_score (f.lit 500 1) ≡ false)
          × (f.lt p.trust_score (f.lit 800 1) ≡ false)))
        × ((p.autonomy_level ≡ restricted)
            ↔ ((e.total_tasks < 10) ⊎ (f.lt p.trust_score (f.lit 500 1) ≡ true)))
    unfolding calculate_score level_of is_sparse
    level_iff = ((λ h. ground arith, λ h. ground arith), (λ h. ground arith, λ h. ground arith))
