-- ===== src/Wal/Steps.antt =====
-- The steps of a process with its log, and what they keep.
use burnlens.Prelude.{ℕ, ◌≡◌, String, Bool, true, Option, some, List, [], ◌∷◌, ◌++◌}
use burnlens.Wal.File.{entry_of, read_events}
use burnlens.Wal.Recovery.{replay}
use burnlens.Wal.Worker.{Worker, enqueue, take, attempt}
use burnlens.Wal.Process.{Process, log_request, cut_short, start, shut_down}

module _ {R J : Type 0} (id_of : R → String) (dumps : R → String) (is_blank : String → Bool)
    (loads : String → Option J) (to_record : J → Option R) (queue_size : ℕ) where
  abbrev pub read : Process R → List (Option R)
  read s = read_events is_blank loads to_record s.wal

  -- The line of the record is read as this record.
  abbrev pub IsReadBack : R → Type 0
  IsReadBack r = entry_of is_blank loads to_record (dumps r) ≡ some r ∷ []

  -- The recovery of the log ends without an exception.
  abbrev pub Recovers : (R → List String → Bool) → Process R → Type 0
  Recovers fails s = (replay id_of fails (read s) s.ids 0).0 ≡ true

  -- What a process does to its log and its worker. The insertions of each step fail by a rule of
  -- that step. The process ends by a crash, in the middle of a write or not, or by a shutdown while
  -- no request is between the log and the queue, and another one starts, whose recovery ends without
  -- an exception.
  pub data Step : Process R → Process R → Type 0 where
    logged : (r : R) (s : Process R) → IsReadBack r → Step s (log_request dumps r s)
    queued :
        (r : R) (earlier later : List R) (w : Worker R) (s : Process R)
        → s.pending ≡ earlier ++ r ∷ later
        → enqueue queue_size r s.worker ≡ some w
        → Step s (record s { pending = earlier ++ later; worker = w })
    taken :
        (w : Worker R) (s : Process R) → take s.worker ≡ some w → Step s (record s { worker = w })
    attempted :
        (fails : R → List String → Bool) (s : Process R)
        → Step s (record s {
          worker = (attempt id_of fails s.worker s.ids).0;
          ids = (attempt id_of fails s.worker s.ids).1;
        })
    crashed :
        (fails : R → List String → Bool) (s : Process R)
        → Recovers fails s
        → Step s (start id_of fails is_blank loads to_record s)
    crashed_writing :
        (fails : R → List String → Bool) (text : String) (s : Process R)
        → Recovers fails (cut_short text s)
        → Step s (start id_of fails is_blank loads to_record (cut_short text s))
    restarted :
        (fails fails' : R → List String → Bool) (s : Process R)
        → s.pending ≡ []
        → Recovers fails' (shut_down id_of fails s)
        → Step s (start id_of fails' is_blank loads to_record (shut_down id_of fails s))

  pub data Reach (s : Process R) : Process R → Type 0 where
    here : Reach s s
    next : {t u : Process R} → Reach s t → Step t u → Reach s u
