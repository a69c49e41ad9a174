-- ===== src/Wal/Replay.antt =====
-- What an insertion, a replay of the log and a stop of the worker leave in the table of requests.
use burnlens.Prelude.{
  ℕ, ◌+◌, ◌≡◌, refl, String, Bool, true, false, ◌||◌, Option, none, some, List, [], ◌∷◌, ◌++◌, ◌==◌,
  eq_refl, Option-cases, inl, inr, and_left, and_right, some_injective, ◌⊎◌, false≢true, arith,
}
use mathlib.Core.List.{Memᴰ}
use mathlib.Core.List.Memᴰ.{head, tail}
use burnlens.Prelude.Lists.{contains}
use burnlens.Wal.Recovery.{insert_request, replay}
use burnlens.Wal.Worker.{
  Worker, insert_or_report, persist_active, drain, stop, attempted, attempt_active, attempt,
}

contains-append :
    (xs : List String) (x y : String) → contains (xs ++ y ∷ []) x ≡ (contains xs x || (y == x))
contains-append [] x y = ground arith
contains-append (z ∷ xs) x y = ground (arith, contains-append xs x y)

module _ {R : Type 0} (id_of : R → String) (fails : R → List String → Bool) where
  -- A row stays, and an insertion without an exception leaves the row of its record.
  pub insert_request-contains :
      (r : R) (ids ids' : List String)
      → insert_request id_of fails r ids ≡ some ids'
      → (contains ids' (id_of r) ≡ true)
        × ((x : String) → contains ids x ≡ true → contains ids' x ≡ true)
  unfolding insert_request
  insert_request-contains r ids ids' h = (
    ground (arith, contains-append ids (id_of r) (id_of r), eq_refl (id_of r)),
    λ x k. ground (arith, contains-append ids x (id_of r)),
  )

  module _ (r : R) (entries : List (Option R)) (ids : List String) (count : ℕ) where
    replay-refused :
        insert_request id_of fails r ids ≡ none
        → replay id_of fails (some r ∷ entries) ids count ≡ (false, ids, count)
    unfolding replay
    replay-refused e = rw (replay, e) refl

    replay-inserted :
        (ids' : List String)
        → insert_request id_of fails r ids ≡ some ids'
        → replay id_of fails (some r ∷ entries) ids count
          ≡ replay id_of fails entries ids' (count + 1)
    unfolding replay
    replay-inserted ids' e = rw (replay, e) refl

  pub replay-grows :
      (entries : List (Option R)) (ids : List String) (count : ℕ) (x : String)
      → contains ids x ≡ true
      → contains (replay id_of fails entries ids count).1 x ≡ true
  unfolding replay
  replay-grows [] ids count x h = h
  replay-grows (none ∷ entries) ids count x h = h
  replay-grows (some r ∷ entries) ids count x h =
      elim (Option-cases (insert_request id_of fails r ids)) [
        | inl e ↦ rw (replay-refused r entries ids count e) h
        | inr (ids', e) ↦
            rw (replay-inserted r entries ids count ids' e) (
              replay-grows entries ids' (count + 1) x
                ((insert_request-contains r ids ids' e).1 x h))
      ]

  arrives :
      {r : R} (entries : List (Option R)) (ids : List String) (count : ℕ) (q : R)
      → contains ids (id_of q) ≡ true
      → (Memᴰ (some r) entries → contains (replay id_of fails entries ids count).1 (id_of r) ≡ true)
      → Memᴰ (some r) (some q ∷ entries)
      → contains (replay id_of fails entries ids count).1 (id_of r) ≡ true
  arrives {r} entries ids count q here later (head e) =
      replay-grows entries ids count (id_of r) (rw (some_injective e) here)
  arrives entries ids count q here later (tail m) = later m

  -- After a replay without an exception every record that was read has its row.
  pub replay-contains :
      {r : R} (entries : List (Option R)) (ids : List String) (count : ℕ)
      → (replay id_of fails entries ids count).0 ≡ true
      → Memᴰ (some r) entries
      → contains (replay id_of fails entries ids count).1 (id_of r) ≡ true
  unfolding replay
  replay-contains [] ids count h m = elim m [ ]
  replay-contains (none ∷ entries) ids count h m = absurd (false≢true h)
  replay-contains {r} (some q ∷ entries) ids count h m =
      elim (Option-cases (insert_request id_of fails q ids)) [
        | inl e ↦ absurd (false≢true (rw (replay-refused q entries ids count e) at h))
        | inr (ids', e) ↦
            let same = replay-inserted q entries ids count ids' e in
            rw same (
              arrives entries ids' (count + 1) q (insert_request-contains q ids ids' e).0
                (replay-contains entries ids' (count + 1) (rw same at h)) m)
      ]

  insert_or_report-contains :
      (r : R) (ids : List String)
      → ((insert_or_report id_of fails r ids).0 ≡ true
          → contains (insert_or_report id_of fails r ids).1 (id_of r) ≡ true)
        × ((x : String)
            → contains ids x ≡ true
            → contains (insert_or_report id_of fails r ids).1 x ≡ true)
  unfolding insert_or_report
  insert_or_report-contains r ids = elim (Option-cases (insert_request id_of fails r ids)) [
    | inl e ↦ rw (insert_or_report, e) (λ h. absurd (false≢true h), λ x h. h)
    | inr (ids', e) ↦
        let (inserted, grown) = insert_request-contains r ids ids' e in
        rw (insert_or_report, e) (λ h. inserted, grown)
  ]

  drain-grows :
      (queue : List R) (ids : List String) (x : String)
      → contains ids x ≡ true
      → contains (drain id_of fails queue ids).1 x ≡ true
  unfolding drain
  drain-grows [] ids x h = h
  drain-grows (r ∷ queue) ids x h =
      drain-grows queue (insert_or_report id_of fails r ids).1 x
        ((insert_or_report-contains r ids).1 x h)

  drain-contains :
      {r : R} (queue : List R) (ids : List String)
      → (drain id_of fails queue ids).0 ≡ true
      → Memᴰ r queue
      → contains (drain id_of fails queue ids).1 (id_of r) ≡ true
  unfolding drain
  drain-contains [] ids h m = elim m [ ]
  drain-contains {r} (q ∷ queue) ids h (head e) =
      let (inserted, ids') = insert_or_report id_of fails q ids in
      drain-grows queue ids' (id_of r) (rw e ((insert_or_report-contains q ids).0 (and_left _ _ h)))
  drain-contains (q ∷ queue) ids h (tail m) =
      let (inserted, ids') = insert_or_report id_of fails q ids in
      drain-contains queue ids' (and_right inserted _ h) m

  persist_active-contains :
      (active : Option R) (ids : List String)
      → ((r : R)
          → active ≡ some r
          → (persist_active id_of fails active ids).0 ≡ true
          → contains (persist_active id_of fails active ids).1 (id_of r) ≡ true)
        × ((x : String)
            → contains ids x ≡ true
            → contains (persist_active id_of fails active ids).1 x ≡ true)
  unfolding persist_active
  persist_active-contains none ids = (λ r e h. cc, λ x h. h)
  persist_active-contains (some q) ids =
      let (inserted, grown) = insert_or_report-contains q ids in
      (λ r e h. rw (← some_injective e) (inserted h), grown)

  -- The rows stay, and if `stop` reports success, the active record and the queue have theirs.
  pub stop-grows :
      (w : Worker R) (ids : List String) (x : String)
      → contains ids x ≡ true
      → contains (stop id_of fails w ids).1 x ≡ true
  unfolding stop
  stop-grows w ids x h =
      drain-grows w.queue (persist_active id_of fails w.active_record ids).1 x
        ((persist_active-contains w.active_record ids).1 x h)

  pub stop-contains :
      {r : R} (w : Worker R) (ids : List String)
      → (stop id_of fails w ids).0 ≡ true
      → (w.active_record ≡ some r) ⊎ Memᴰ r w.queue
      → contains (stop id_of fails w ids).1 (id_of r) ≡ true
  unfolding stop
  stop-contains {r} w ids h (inl busy) =
      let (persisted, ids') = persist_active id_of fails w.active_record ids in
      drain-grows w.queue ids' (id_of r)
        ((persist_active-contains w.active_record ids).0 r busy (and_left _ _ h))
  stop-contains w ids h (inr waiting) =
      let (persisted, ids') = persist_active id_of fails w.active_record ids in
      drain-contains w.queue ids' (and_right persisted _ h) waiting

  attempt_active-contains :
      (active : Option R) (w : Worker R) (ids : List String)
      → ((r : R)
          → active ≡ some r
          → (contains (attempt_active id_of fails active w ids).1 (id_of r) ≡ true)
            ⊎ ((attempt_active id_of fails active w ids).0 ≡ w))
        × ((x : String)
            → contains ids x ≡ true
            → contains (attempt_active id_of fails active w ids).1 x ≡ true)
        × ((attempt_active id_of fails active w ids).0.queue ≡ w.queue)
  unfolding attempt_active attempted
  attempt_active-contains none w ids = (λ r e. cc, λ x h. h, refl)
  attempt_active-contains (some q) w ids = elim (Option-cases (insert_request id_of fails q ids)) [
    | inl e ↦ rw e (λ r same. inr refl, λ x h. h, refl)
    | inr (ids', e) ↦
        let (inserted, grown) = insert_request-contains q ids ids' e in
        rw e (λ r same. inl (rw (← some_injective same) inserted), grown, refl)
  ]

  -- An attempt keeps the rows and the queue, and leaves the row of the active record or changes
  -- nothing in the worker.
  pub attempt-contains :
      (w : Worker R) (ids : List String)
      → ((r : R)
          → w.active_record ≡ some r
          → (contains (attempt id_of fails w ids).1 (id_of r) ≡ true)
            ⊎ ((attempt id_of fails w ids).0 ≡ w))
        × ((x : String) → contains ids x ≡ true → contains (attempt id_of fails w ids).1 x ≡ true)
        × ((attempt id_of fails w ids).0.queue ≡ w.queue)
  unfolding attempt
  attempt-contains w ids = attempt_active-contains w.active_record w ids
