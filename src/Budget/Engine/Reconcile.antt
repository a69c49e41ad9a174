-- ===== src/Budget/Engine/Reconcile.antt =====
-- A reservation that is reconciled with what the request has cost.
use burnlens.Prelude.{
  ℕ, ◌≡◌, refl, ◌∙◌, String, false, some, List, [], ◌∷◌, Bool-cases, inl, inr, if◌then◌else◌,
}
use mathlib.Core.Path.{subst}
use burnlens.Float.{Float, nought}
use burnlens.Budget.Policy.{BudgetPolicy}
use burnlens.Budget.Engine.{Counters, Matched, is_key, spend_of, allowed, reserve, reconcile}
use burnlens.Budget.Engine.Reserve.{
  HasDistinctNames, added_at, add_all-added_at, reserved, Reserves, reserve-Reserves,
}

module _ {W : Type 0} ⦃f : Float W⦄ (initial : BudgetPolicy W → ℕ → W) (cost actual : W) where
  -- A counter after both: a matched one has its value from before with the cost added and then the
  -- difference of the actual cost to it, and any other one is as before.
  abbrev pub settled : Counters W → List (Matched W) → Counters W
  settled rows [] n s = rows n s
  settled rows (m ∷ ms) n s =
      if is_key m.0.name m.1 n s
      then some (f.add (f.add (spend_of initial m rows) cost) (f.sub actual cost))
      else settled rows ms n s

  added_at-reserved :
      (rows : Counters W) (ms : List (Matched W)) (n : String) (s : ℕ)
      → added_at (f.sub actual cost) ms n s (reserved initial cost rows ms n s)
        ≡ settled rows ms n s
  added_at-reserved rows [] n s = refl
  added_at-reserved rows (m ∷ ms) n s = elim (Bool-cases (is_key m.0.name m.1 n s)) [
    | inl e ↦ rw e refl
    | inr e ↦ rw e (added_at-reserved rows ms n s)
  ]

  -- For matched policies with distinct names, of which there is one, and a cost above zero: when a
  -- request that has been allowed is reconciled, each matched counter stands at its value from
  -- before the reservation, or the initial spend, with the estimated cost added and then the
  -- difference of the actual cost to it; every other counter is as it was.
  pub reconcile-reserve :
      (m : Matched W) (ms : List (Matched W)) (rows after : Counters W) (n : String) (s : ℕ)
      → HasDistinctNames (m ∷ ms)
      → f.le cost nought ≡ false
      → reserve initial cost (m ∷ ms) rows ≡ (allowed cost (m ∷ ms), after)
      → reconcile actual (allowed cost (m ∷ ms)) after n s ≡ settled rows (m ∷ ms) n s
  unfolding reconcile
  reconcile-reserve m ms rows after n s distinct positive reserved_so =
      let (_, _, _, table) =
        subst (Reserves initial cost rows (m ∷ ms)) reserved_so
          (reserve-Reserves initial cost (m ∷ ms) rows distinct) in
      rw positive (
        add_all-added_at (f.sub actual cost) (m ∷ ms) after n s distinct
        ∙ (rw (table n s) (added_at-reserved rows (m ∷ ms) n s)))
