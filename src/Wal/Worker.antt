-- ===== src/Wal/Worker.antt =====
-- `SQLitePersistenceWorker` of burnlens/storage/wal.py.
use burnlens.Prelude.{
  ℕ, String, Bool, true, false, ◌&&◌, Option, none, some, List, [], ◌∷◌, ◌++◌, if◌then◌else◌, ltb,
}
use burnlens.Prelude.Lists.{length}
use burnlens.Wal.Recovery.{insert_request}

pub record Worker (R : Type 0) : Type 0 where
  pub queue : List R
  pub active_record : Option R

module _ {R : Type 0} where
  abbrev pub new_worker : Worker R
  new_worker = record { queue = []; active_record = none }

  -- `enqueue`: `Queue.put` waits while the queue is full
  unfoldable pub enqueue : ℕ → R → Worker R → Option (Worker R)
  enqueue queue_size r w =
      if ltb (length w.queue) queue_size
      then some (record w { queue = w.queue ++ r ∷ [] })
      else none

  unfoldable pub next_record : List R → Option R → Option (Worker R)
  next_record queue (some r) = none
  next_record [] none = none
  next_record (r ∷ rest) none = some (record { queue = rest; active_record = some r })

  -- the start of a round of `_worker_loop`; `none` while the queue is empty or a record is active
  unfoldable pub take : Worker R → Option (Worker R)
  take w = next_record w.queue w.active_record

module _ {R : Type 0} (id_of : R → String) (fails : R → List String → Bool) where
  unfoldable pub attempted : Option (List String) → Worker R → List String → Worker R × List String
  attempted none w ids = (w, ids)
  attempted (some ids') w ids = (record w { active_record = none }, ids')

  unfoldable pub attempt_active : Option R → Worker R → List String → Worker R × List String
  unfolding attempted
  attempt_active none w ids = (w, ids)
  attempt_active (some r) w ids = attempted (insert_request id_of fails r ids) w ids

  -- one attempt of `_worker_loop` to insert the active record: after an exception it stays active
  unfoldable pub attempt : Worker R → List String → Worker R × List String
  attempt w ids = attempt_active w.active_record w ids

  -- one insertion of `stop`, which reports its exception
  unfoldable pub insert_or_report : R → List String → Bool × List String
  insert_or_report r ids = elim (insert_request id_of fails r ids) [
    | none ↦ (false, ids)
    | some ids' ↦ (true, ids')
  ]

  unfoldable pub persist_active : Option R → List String → Bool × List String
  persist_active none ids = (true, ids)
  persist_active (some r) ids = insert_or_report r ids

  -- the loop of `stop` over the queue: a record whose insertion fails is dropped
  unfoldable pub drain : List R → List String → Bool × List String
  drain [] ids = (true, ids)
  drain (r ∷ queue) ids =
      let (inserted, ids') = insert_or_report r ids in
      let (success, ids'') = drain queue ids' in (inserted && success, ids'')

  -- `stop`
  unfoldable pub stop : Worker R → List String → Bool × List String
  stop w ids =
      let (persisted, ids') = persist_active w.active_record ids in
      let (success, ids'') = drain w.queue ids' in (persisted && success, ids'')
