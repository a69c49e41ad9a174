-- ===== src/Wal/Held.antt =====
-- Which records the worker holds.
use burnlens.Prelude.{
  ℕ, ◌≡◌, ◌⊎◌, sym, ap, Option, none, some, List, [], ◌∷◌, Bool-cases, some_injective, ltb, inl,
  inr,
}
use mathlib.Core.Path.{subst}
use mathlib.Core.List.{Memᴰ}
use mathlib.Core.List.Memᴰ.{head, tail}
use burnlens.Prelude.Lists.{length, mem-append_left, mem-append_last}
use burnlens.Wal.Worker.{Worker, next_record, enqueue, take}

module _ {R : Type 0} where
  -- the worker holds the record
  abbrev pub IsHeldBy : R → Worker R → Type 0
  IsHeldBy r w = (w.active_record ≡ some r) ⊎ Memᴰ r w.queue

  pub enqueue-holds :
      (size : ℕ) (r : R) (w w' : Worker R)
      → enqueue size r w ≡ some w'
      → IsHeldBy r w' × ((q : R) → IsHeldBy q w → IsHeldBy q w')
  unfolding enqueue
  enqueue-holds size r w w' h = elim (Bool-cases (ltb (length w.queue) size)) [
    | inl free ↦
        subst (λ u. IsHeldBy r u × ((q : R) → IsHeldBy q w → IsHeldBy q u))
          (some_injective (rw free at h))
          (
            inr (mem-append_last w.queue r),
            λ q held. elim held [
              | inl e ↦ inl e
              | inr m ↦ inr (mem-append_left w.queue (r ∷ []) m)
            ],
          )
    | inr full ↦ cc (rw full at h)
  ]

  next_record-holds :
      (queue : List R) (active : Option R) (w : Worker R)
      → next_record queue active ≡ some w
      → (q : R) → (active ≡ some q) ⊎ Memᴰ q queue
      → IsHeldBy q w
  unfolding next_record
  next_record-holds queue (some r) w h q held = cc
  next_record-holds [] none w h q held = cc
  next_record-holds (r ∷ rest) none w h q (inl e) = cc
  next_record-holds (r ∷ rest) none w h q (inr (head e)) =
      subst (λ u. IsHeldBy q u) (some_injective h) (inl (ap some (sym e)))
  next_record-holds (r ∷ rest) none w h q (inr (tail m)) =
      subst (λ u. IsHeldBy q u) (some_injective h) (inr m)

  pub take-holds : (w w' : Worker R) → take w ≡ some w' → (q : R) → IsHeldBy q w → IsHeldBy q w'
  unfolding take
  take-holds w w' h q held = next_record-holds w.queue w.active_record w' h q held
