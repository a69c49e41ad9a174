-- ===== src/Float.antt =====
-- Python's `float`, which the program uses for money, rates and scores. It is a parameter of the
-- model: a type with the operations that the source calls. Theorems that need facts about its
-- order or arithmetic take them as a record of laws.
pub mod Micro
use burnlens.Prelude.{ℕ, ◌≡◌, ◌⊎◌, Bool, true, false, not, if◌then◌else◌}

pub record Float (W : Type 0) : Type 0 where
  pub lit : ℕ → ℕ → W  -- `lit n k` is the literal n / 10 ** k
  pub of_nat : ℕ → W
  pub add : W → W → W
  pub sub : W → W → W
  pub mul : W → W → W
  pub div : W → W → W
  pub lt : W → W → Bool
  pub le : W → W → Bool
  pub neg : W → W
  pub round : W → ℕ → W

module _ {W : Type 0} ⦃f : Float W⦄ where
  abbrev pub nought : W
  nought = f.lit 0 0

  -- `max(a, b)` and `min(a, b)` keep the first argument unless the second one beats it
  abbrev pub max : W → W → W
  max a b = if f.lt a b then b else a

  abbrev pub min : W → W → W
  min a b = if f.lt b a then b else a
