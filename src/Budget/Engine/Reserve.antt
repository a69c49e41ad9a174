-- ===== src/Budget/Engine/Reserve.antt =====
-- What a reservation does to every counter.
use mathlib.Core.Option
use mathlib.Core.List.{Memᴰ}
use mathlib.Core.List.Memᴰ.{head, tail}
use burnlens.Prelude.{
  ℕ, ◌≡◌, refl, inl, inr, String, true, false, Option, some, List, [], ◌∷◌, ◌==◌, ◌==ℕ◌, eq_iff,
  eq_refl, ==ℕ_iff, ==_false_symm, ◌∙◌, Bool-cases, and_left, and_right, if◌then◌else◌,
}
use burnlens.Prelude.Lists.{All, All-mem, HasDistinct}
use burnlens.Float.{Float}
use burnlens.Budget.Policy.{BudgetPolicy}
use burnlens.Budget.Engine.{
  Counters, Matched, is_key, insert_row, add_spend, add_all, Check, within, over, spend_of,
  ensure_row, check_policies, Reservation, allowed, violated, unpriced, reserve,
  commit_or_roll_back,
}

pub key_name : (a : String) (b : ℕ) (n : String) (s : ℕ) → is_key a b n s ≡ true → a ≡ n
key_name a b n s h = (eq_iff a n).0 (and_left (a == n) (b ==ℕ s) h)

key_start : (a : String) (b : ℕ) (n : String) (s : ℕ) → is_key a b n s ≡ true → b ≡ s
key_start a b n s h = (==ℕ_iff b s).0 (and_right (a == n) (b ==ℕ s) h)

pub key_self : (a : String) (b : ℕ) → is_key a b a b ≡ true
key_self a b = rw (eq_refl a) ((==ℕ_iff b b).1 refl)

key_other : (a c : String) (b s : ℕ) → (a == c) ≡ false → is_key a b c s ≡ false
key_other a c b s h = rw h

module _ {W : Type 0} where
  -- No two of the policies have one name.
  abbrev pub HasDistinctNames : List (Matched W) → Type 0
  HasDistinctNames = HasDistinct (λ m. m.0.name)

module _ {W : Type 0} ⦃f : Float W⦄ where
  -- one row of the table under the second loop
  abbrev pub added_at : W → List (Matched W) → String → ℕ → Option W → Option W
  added_at a [] n s v = v
  added_at a (m ∷ ms) n s v =
      if is_key m.0.name m.1 n s then Option.map (λ w. f.add w a) v else added_at a ms n s v

  added_at-other :
      (a : W) (name : String) (ms : List (Matched W)) (s : ℕ) (v : Option W)
      → All (λ k. (name == k.0.name) ≡ false) ms
      → added_at a ms name s v ≡ v
  added_at-other a name [] s v h = refl
  added_at-other a name (m ∷ ms) s v h =
      rw (key_other m.0.name name m.1 s (==_false_symm name m.0.name h.0))
        (added_at-other a name ms s v h.1)

  pub add_all-added_at :
      (a : W) (ms : List (Matched W)) (t : Counters W) (n : String) (s : ℕ)
      → HasDistinctNames ms
      → add_all a ms t n s ≡ added_at a ms n s (t n s)
  unfolding add_all add_spend
  add_all-added_at a [] t n s h = refl
  add_all-added_at a (m ∷ ms) t n s h =
      add_all-added_at a ms (add_spend a m.0.name m.1 t) n s h.1
      ∙ elim (Bool-cases (is_key m.0.name m.1 n s)) [
        | inl e ↦ rw e (rw (← key_name m.0.name m.1 n s e) (added_at-other a m.0.name ms s _ h.0))
        | inr e ↦ rw e
      ]

module _ {W : Type 0} ⦃f : Float W⦄ (initial : BudgetPolicy W → ℕ → W) where
  -- the table after the first loop
  abbrev opened : Counters W → List (Matched W) → Counters W
  opened rows [] n s = rows n s
  opened rows (m ∷ ms) n s =
      if is_key m.0.name m.1 n s then some (spend_of initial m rows) else opened rows ms n s

  ensure_row-other :
      (m : Matched W) (rows : Counters W) (n : String) (s : ℕ)
      → is_key m.0.name m.1 n s ≡ false
      → ensure_row initial m rows n s ≡ rows n s
  unfolding ensure_row insert_row
  ensure_row-other m rows n s h = rw h

  ensure_row_self :
      (m : Matched W) (rows : Counters W)
      → ensure_row initial m rows m.0.name m.1 ≡ some (spend_of initial m rows)
  unfolding ensure_row insert_row spend_of
  ensure_row_self m rows = rw (key_self m.0.name m.1)

  spend_of-ensure_row :
      (m k : Matched W) (rows : Counters W)
      → (m.0.name == k.0.name) ≡ false
      → spend_of initial k (ensure_row initial m rows) ≡ spend_of initial k rows
  unfolding spend_of
  spend_of-ensure_row m k rows h =
      rw (ensure_row-other m rows k.0.name k.1 (key_other m.0.name k.0.name m.1 k.1 h))

  opened-other :
      (rows : Counters W) (name : String) (ms : List (Matched W)) (s : ℕ)
      → All (λ k. (name == k.0.name) ≡ false) ms
      → opened rows ms name s ≡ rows name s
  opened-other rows name [] s h = refl
  opened-other rows name (m ∷ ms) s h =
      rw (key_other m.0.name name m.1 s (==_false_symm name m.0.name h.0))
        (opened-other rows name ms s h.1)

  opened-ensure_row :
      (m : Matched W) (rows : Counters W) (ms : List (Matched W)) (n : String) (s : ℕ)
      → All (λ k. (m.0.name == k.0.name) ≡ false) ms
      → is_key m.0.name m.1 n s ≡ false
      → opened (ensure_row initial m rows) ms n s ≡ opened rows ms n s
  opened-ensure_row m rows [] n s h e = ensure_row-other m rows n s e
  opened-ensure_row m rows (k ∷ ms) n s h e =
      rw (spend_of-ensure_row m k rows h.0) (rw (opened-ensure_row m rows ms n s h.1 e))

  opened-cons :
      (m : Matched W) (rows : Counters W) (ms : List (Matched W)) (n : String) (s : ℕ)
      → All (λ k. (m.0.name == k.0.name) ≡ false) ms
      → opened (ensure_row initial m rows) ms n s ≡ opened rows (m ∷ ms) n s
  opened-cons m rows ms n s h = elim (Bool-cases (is_key m.0.name m.1 n s)) [
    | inl e ↦ rw e (
        rw (← key_name m.0.name m.1 n s e) (
          rw (← key_start m.0.name m.1 n s e)
            (opened-other (ensure_row initial m rows) m.0.name ms m.1 h ∙ ensure_row_self m rows)))
    | inr e ↦ rw e (opened-ensure_row m rows ms n s h e)
  ]

  module _ (cost : W) where
    -- The policy has room for the cost.
    abbrev pub Fits : Counters W → Matched W → Type 0
    Fits rows m = f.lt m.0.limit_usd (f.add (spend_of initial m rows) cost) ≡ false

    -- The policy has no room for the cost.
    abbrev pub Exceeds : Counters W → Matched W → Type 0
    Exceeds rows m = f.lt m.0.limit_usd (f.add (spend_of initial m rows) cost) ≡ true

    -- The counters after the cost is reserved with every matched policy: each matched policy's
    -- counter is its value, or its initial spend, and the cost; every other is as it was.
    abbrev pub reserved : Counters W → List (Matched W) → Counters W
    reserved rows [] n s = rows n s
    reserved rows (m ∷ ms) n s =
        if is_key m.0.name m.1 n s
        then some (f.add (spend_of initial m rows) cost)
        else reserved rows ms n s

    added_at-opened :
        (rows : Counters W) (ms : List (Matched W)) (n : String) (s : ℕ)
        → added_at cost ms n s (opened rows ms n s) ≡ reserved rows ms n s
    added_at-opened rows [] n s = refl
    added_at-opened rows (m ∷ ms) n s = elim (Bool-cases (is_key m.0.name m.1 n s)) [
      | inl e ↦ rw e
      | inr e ↦ rw e (added_at-opened rows ms n s)
    ]

    Fits-ensure_row :
        (m : Matched W) (rows : Counters W) (ms : List (Matched W))
        → All (λ k. (m.0.name == k.0.name) ≡ false) ms
        → All (Fits (ensure_row initial m rows)) ms
        → All (Fits rows) ms
    Fits-ensure_row m rows [] h fit = tt
    Fits-ensure_row m rows (k ∷ ms) h fit =
        (rw (spend_of-ensure_row m k rows h.0) at fit.0, Fits-ensure_row m rows ms h.1 fit.1)

    -- How the first loop ends.
    abbrev Ends : Counters W → List (Matched W) → Check W → Type 0
    Ends rows ms (within t) =
        All (Fits rows) ms × ((n : String) (s : ℕ) → t n s ≡ opened rows ms n s)
    Ends rows ms (over p) = (m : Matched W) × Memᴰ m ms × (m.0 ≡ p) × Exceeds rows m

    Ends-cons :
        (m : Matched W) (ms : List (Matched W)) (rows : Counters W) (c : Check W)
        → All (λ k. (m.0.name == k.0.name) ≡ false) ms
        → Fits rows m
        → Ends (ensure_row initial m rows) ms c
        → Ends rows (m ∷ ms) c
    Ends-cons m ms rows (within t) h fit (fits, table) =
        ((fit, Fits-ensure_row m rows ms h fits), λ n s. table n s ∙ opened-cons m rows ms n s h)
    Ends-cons m ms rows (over p) h fit (k, mem, e, exceeds) = (
      k,
      tail mem,
      e,
      rw (← spend_of-ensure_row m k rows (All-mem (λ k. (m.0.name == k.0.name) ≡ false) ms h mem))
          exceeds,
    )

    check_policies-Ends :
        (ms : List (Matched W)) (rows : Counters W)
        → HasDistinctNames ms
        → Ends rows ms (check_policies initial cost ms rows)
    unfolding check_policies
    check_policies-Ends [] rows h = (tt, λ n s. refl)
    check_policies-Ends (m ∷ ms) rows h =
        elim (Bool-cases (f.lt m.0.limit_usd (f.add (spend_of initial m rows) cost))) [
          | inl e ↦ rw e (m, head refl, refl, e)
          | inr e ↦
              rw e (
                Ends-cons m ms rows _ h.0 e
                  (check_policies-Ends ms (ensure_row initial m rows) h.1))
        ]

    -- What a reservation does, whichever way it ends.
    abbrev pub Reserves : Counters W → List (Matched W) → Reservation W × Counters W → Type 0
    Reserves rows ms (allowed c used, t) =
        (c ≡ cost)
        × (used ≡ ms)
        × All (Fits rows) ms
        × ((n : String) (s : ℕ) → t n s ≡ reserved rows ms n s)
    Reserves rows ms (violated p c, t) =
        (c ≡ cost) × (t ≡ rows) × (m : Matched W) × Memᴰ m ms × (m.0 ≡ p) × Exceeds rows m
    Reserves rows ms (unpriced _, t) = ⊥

    -- For matched policies with distinct names: a request is allowed only if every policy has room
    -- for its cost, and then each policy's counter grows by the cost, from the value it had or from
    -- the initial spend, and no other counter changes; a request is refused only if the policy
    -- named has no room for it, and then no counter changes.
    pub reserve-Reserves :
        (ms : List (Matched W)) (rows : Counters W)
        → HasDistinctNames ms
        → Reserves rows ms (reserve initial cost ms rows)
    unfolding reserve
    reserve-Reserves ms rows h =
        settle (check_policies initial cost ms rows) (check_policies-Ends ms rows h)
      where
        settle :
            (c : Check W)
            → Ends rows ms c
            → Reserves rows ms (commit_or_roll_back initial cost ms rows c)
        settle (within t) (fits, table) = (
          refl,
          refl,
          fits,
          λ n s. add_all-added_at cost ms t n s h ∙ (rw (table n s) (added_at-opened rows ms n s)),
        )
        settle (over p) (m, mem, e, exceeds) = (refl, refl, m, mem, e, exceeds)
