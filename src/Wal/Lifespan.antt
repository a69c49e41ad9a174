-- ===== src/Wal/Lifespan.antt =====
-- What a request that was logged can count on, from the start of its process on.
use burnlens.Prelude.{
  ℕ, ◌≡◌, refl, sym, String, Bool, true, false, Option, some, List, [], inl, inr,
}
use mathlib.Core.Path.{subst}
use mathlib.Core.List.{Memᴰ}
use burnlens.Prelude.Lists.{contains, mem-append_last}
use burnlens.Wal.File.{read_events}
use burnlens.Wal.File.Append.{append_event-read_events}
use burnlens.Wal.Recovery.{replay, recover_wal}
use burnlens.Wal.Worker.{stop, persist_active, drain}
use burnlens.Wal.Process.{Process, log_request, start, shut_down}
use burnlens.Wal.Steps.{IsReadBack, Recovers, Reach, here, next}
use burnlens.Wal.Durability.{
  IsCovered, IsKept, read-truncate, start-IsCovered, log_request-IsCovered, Step-IsCovered,
  Step-IsKept, shut_down-IsKept,
}

module _ {R J : Type 0} (id_of : R → String) (dumps : R → String) (is_blank : String → Bool)
    (loads : String → Option J) (to_record : J → Option R) (queue_size : ℕ) where
  Reach-IsCovered :
      {s t : Process R}
      → Reach id_of dumps is_blank loads to_record queue_size s t
      → IsCovered id_of is_blank loads to_record s
      → IsCovered id_of is_blank loads to_record t
  Reach-IsCovered here h = h
  Reach-IsCovered (next r st) h =
      Step-IsCovered id_of is_blank loads to_record dumps queue_size st (Reach-IsCovered r h)

  Reach-IsKept :
      {s t : Process R} (r : R)
      → Reach id_of dumps is_blank loads to_record queue_size s t
      → IsCovered id_of is_blank loads to_record s
      → IsKept id_of is_blank loads to_record r s
      → IsKept id_of is_blank loads to_record r t
  Reach-IsKept r here h kept = kept
  Reach-IsKept r (next reach st) h kept =
      Step-IsKept id_of is_blank loads to_record dumps queue_size r st (Reach-IsCovered reach h)
        (Reach-IsKept r reach h kept)

  -- A record that is logged after a recovery without an exception is kept.
  pub log_request-IsKept :
      (fails : R → List String → Bool) (s : Process R) (r : R) {t u : Process R}
      → Recovers id_of dumps is_blank loads to_record queue_size fails s
      → Reach id_of dumps is_blank loads to_record queue_size
          (start id_of fails is_blank loads to_record s)
          t
      → IsReadBack id_of dumps is_blank loads to_record queue_size r
      → Reach id_of dumps is_blank loads to_record queue_size (log_request dumps r t) u
      → IsKept id_of is_blank loads to_record r u
  unfolding log_request
  log_request-IsKept fails s r {t} done before own after =
      let covered =
        Reach-IsCovered before (start-IsCovered id_of is_blank loads to_record fails s done) in
      let (appended, _) =
        append_event-read_events is_blank loads to_record dumps r t.wal covered.0 own in
      Reach-IsKept r after
        (log_request-IsCovered id_of is_blank loads to_record dumps queue_size r t own covered)
        (inr (subst (λ es. Memᴰ (some r) es) (sym appended) (mem-append_last _ (some r))))

  -- In a process whose recovery ended without an exception, and while every request that is logged is
  -- read back from its own line: a shutdown that reports success, during which no request is logged
  -- or waits for the queue, empties the log and leaves in the database every request that was in the
  -- one or the other.
  pub shut_down_complete :
      (fails fails' : R → List String → Bool) (s : Process R) (r : R) {t : Process R}
      → Recovers id_of dumps is_blank loads to_record queue_size fails s
      → Reach id_of dumps is_blank loads to_record queue_size
          (start id_of fails is_blank loads to_record s)
          t
      → t.pending ≡ []
      → (stop id_of fails' t.worker t.ids).0 ≡ true
      → IsKept id_of is_blank loads to_record r t
      → let t' = shut_down id_of fails' t in
        (contains t'.ids (id_of r) ≡ true) × (read_events is_blank loads to_record t'.wal ≡ [])
  unfolding shut_down
  shut_down_complete fails fails' s r {t} done reach quiet success kept =
      let covered =
        Reach-IsCovered reach (start-IsCovered id_of is_blank loads to_record fails s done) in
      let empty : read_events is_blank loads to_record (shut_down id_of fails' t).wal ≡ [] =
        rw success (read-truncate is_blank loads to_record t.wal) in
      (
        elim (shut_down-IsKept id_of is_blank loads to_record fails' t quiet covered r kept) [
          | inl row ↦ row
          | inr m ↦ absurd (elim (subst (λ es. Memᴰ (some r) es) empty m) [ ])
        ],
        empty,
      )

  -- After a recovery that ends by an exception the log is as it was, and a shutdown with nothing in
  -- the worker empties it all the same, without a new row.
  pub start-unrecovered :
      (fails fails' : R → List String → Bool) (s : Process R)
      → (replay id_of fails (read_events is_blank loads to_record s.wal) s.ids 0).0 ≡ false
      → let s' = start id_of fails is_blank loads to_record s in
        let t = shut_down id_of fails' s' in
        (s'.wal ≡ s.wal) × (t.ids ≡ s'.ids) × (read_events is_blank loads to_record t.wal ≡ [])
  unfolding start shut_down recover_wal stop persist_active drain
  start-unrecovered fails fails' s broken =
      rw broken (refl, refl, read-truncate is_blank loads to_record s.wal)
