-- ===== src/Wal/Recovery.antt =====
-- `recover_wal` and `replay_dlq` of burnlens/storage/wal.py. The table of requests is modelled by the
-- event ids of its rows. A parameter, `fails`, says where an insertion raises, for an error of SQLite
-- or for a relationship that is not valid. The records are those that the log holds: they have an
-- event id, no column that must not be NULL is empty, and none is of a scan importer, so that the
-- index on the event ids is the only one that `OR IGNORE` can meet.
use burnlens.Prelude.{
  ℕ, ◌+◌, String, Bool, true, false, Option, none, some, List, [], ◌∷◌, ◌++◌, if◌then◌else◌,
}
use burnlens.Prelude.Lists.{contains}
use burnlens.Wal.File.{LogFile, truncate, read_events}

module _ {R : Type 0} (id_of : R → String) (fails : R → List String → Bool) where
  -- `insert_request`: `INSERT OR IGNORE` with a unique index on the event id
  unfoldable pub insert_request : R → List String → Option (List String)
  insert_request r ids =
      if fails r ids
      then none
      else if contains ids (id_of r)
      then some ids
      else some (ids ++ id_of r ∷ [])

  -- the loop of `recover_wal`: whether it ends without an exception, the table and the count
  unfoldable pub replay : List (Option R) → List String → ℕ → Bool × List String × ℕ
  replay [] ids count = (true, ids, count)
  replay (none ∷ entries) ids count = (false, ids, count)
  replay (some r ∷ entries) ids count = elim (insert_request r ids) [
    | none ↦ (false, ids, count)
    | some ids' ↦ replay entries ids' (count + 1)
  ]

  module _ {J : Type 0} (is_blank : String → Bool) (loads : String → Option J)
      (to_record : J → Option R) where
    -- `recover_wal`
    unfoldable pub recover_wal : Option LogFile → List String → ℕ × Option LogFile × List String
    recover_wal path ids =
        let (done, ids', count) = replay (read_events is_blank loads to_record path) ids 0 in
        (count, if done then truncate path else path, ids')
