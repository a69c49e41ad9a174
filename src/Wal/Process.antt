-- ===== src/Wal/Process.antt =====
-- The life of the log and the worker in a proxy process: `lifespan` of burnlens/proxy/server.py, and
-- the two calls by which burnlens/proxy/interceptor.py stores a request. A shutdown is one step: a
-- request that is logged while the worker stops is not modelled. What an insertion meets is a
-- parameter of each operation, `fails`, so that it may differ from one to the next.
use burnlens.Prelude.{String, Bool, Option, some, List, [], ◌∷◌, if◌then◌else◌}
use burnlens.Wal.File.{LogFile, torn, opened, write, append_event, truncate}
use burnlens.Wal.Recovery.{recover_wal}
use burnlens.Wal.Worker.{Worker, new_worker, stop}

pub record Process (R : Type 0) : Type 0 where
  pub wal : Option LogFile
  pub ids : List String  -- of the rows in the database
  pub pending : List R  -- written to the log, and not yet in the queue
  pub worker : Worker R

-- `wal.append_event` of a request that has its event id
unfoldable pub log_request : {R : Type 0} → (R → String) → R → Process R → Process R
log_request dumps r s = record s {
  wal = some (append_event dumps r s.wal);
  pending = r ∷ s.pending;
}

-- the file after a crash that cuts the line of `append_event` short
unfoldable pub cut_short : {R : Type 0} → String → Process R → Process R
cut_short text s = record s { wal = some (write (torn text) (opened s.wal)) }

module _ {R : Type 0} (id_of : R → String) (fails : R → List String → Bool) where
  module _ {J : Type 0} (is_blank : String → Bool) (loads : String → Option J)
      (to_record : J → Option R) where
    -- the start of a process: recovery, then a new worker, whatever became of the recovery
    unfoldable pub start : Process R → Process R
    start s =
        let (count, wal, ids) = recover_wal id_of fails is_blank loads to_record s.wal s.ids in
        record { wal = wal; ids = ids; pending = []; worker = new_worker }

  -- the end of `lifespan`
  unfoldable pub shut_down : Process R → Process R
  shut_down s =
      let (success, ids) = stop id_of fails s.worker s.ids in
      record {
        wal = if success then truncate s.wal else s.wal;
        ids = ids;
        pending = [];
        worker = new_worker;
      }
