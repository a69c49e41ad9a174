-- ===== src/Wal/Durability.antt =====
-- No request that is in the log is lost.
use burnlens.Prelude.{
  ℕ, ◌≡◌, ◌⊎◌, refl, sym, String, Bool, true, Option, none, some, List, [], ◌∷◌, Bool-cases,
  some_injective, inl, inr,
}
use mathlib.Core.Path.{subst}
use mathlib.Core.List.{Memᴰ}
use mathlib.Core.List.Memᴰ.{head, tail}
use burnlens.Prelude.Lists.{contains, mem-snoc, mem-append_left, mem-middle}
use burnlens.Wal.File.{LogFile, truncate, entry_of, entries_of, read_lines, read_events}
use burnlens.Wal.File.Append.{IsWhole, append_event-read_events}
use burnlens.Wal.File.Torn.{write-read_events}
use burnlens.Wal.Recovery.{replay, recover_wal}
use burnlens.Wal.Worker.{stop}
use burnlens.Wal.Process.{Process, log_request, cut_short, start, shut_down}
use burnlens.Wal.Held.{IsHeldBy, enqueue-holds, take-holds}
use burnlens.Wal.Replay.{replay-grows, replay-contains, stop-grows, stop-contains, attempt-contains}
use burnlens.Wal.Steps.{
  Step, logged, queued, taken, attempted, crashed, crashed_writing, restarted, IsReadBack,
}

module _ {R J : Type 0} (is_blank : String → Bool) (loads : String → Option J)
    (to_record : J → Option R) where
  pub read-truncate :
      (path : Option LogFile) → read_events is_blank loads to_record (truncate path) ≡ []
  unfolding truncate read_events entries_of read_lines
  read-truncate none = refl
  read-truncate (some file) = refl

truncate-IsWhole : (path : Option LogFile) → IsWhole (truncate path)
unfolding truncate
truncate-IsWhole none = refl
truncate-IsWhole (some file) = refl

module _ {R J : Type 0} (id_of : R → String) (is_blank : String → Bool) (loads : String → Option J)
    (to_record : J → Option R) where
  -- The record has its row, or is on its way to it.
  abbrev pub IsTracked : R → Process R → Type 0
  IsTracked r s = (contains s.ids (id_of r) ≡ true) ⊎ (Memᴰ r s.pending ⊎ IsHeldBy r s.worker)

  -- The log ends with a newline, and every record in it is tracked.
  abbrev pub IsCovered : Process R → Type 0
  IsCovered s =
      IsWhole s.wal
      × ((r : R) → Memᴰ (some r) (read_events is_blank loads to_record s.wal) → IsTracked r s)

  -- The record has its row, or is in the log.
  abbrev pub IsKept : R → Process R → Type 0
  IsKept r s =
      (contains s.ids (id_of r) ≡ true) ⊎ Memᴰ (some r) (read_events is_blank loads to_record s.wal)

  module _ (fails : R → List String → Bool) (s : Process R)
      (done : (replay id_of fails (read_events is_blank loads to_record s.wal) s.ids 0).0
        ≡ true) where
    pub start-IsCovered : IsCovered (start id_of fails is_blank loads to_record s)
    unfolding start recover_wal
    start-IsCovered = rw done (
      truncate-IsWhole s.wal,
      λ r m.
          elim (subst (λ es. Memᴰ (some r) es) (read-truncate is_blank loads to_record s.wal)
            m) [ ],
    )

    start-IsKept : (r : R) → IsKept r s → IsKept r (start id_of fails is_blank loads to_record s)
    unfolding start recover_wal
    start-IsKept r (inl row) = inl (replay-grows id_of fails _ s.ids 0 (id_of r) row)
    start-IsKept r (inr m) = inl (replay-contains id_of fails _ s.ids 0 done m)

  -- A line that is cut short is read after what was in the log.
  cut_short-IsKept :
      (text : String) (s : Process R)
      → IsWhole s.wal
      → (r : R) → IsKept r s
      → IsKept r (cut_short text s)
  unfolding cut_short
  cut_short-IsKept text s ends r (inl row) = inl row
  cut_short-IsKept text s ends r (inr m) = inr (
      rw (write-read_events is_blank loads to_record text s.wal ends)
        (mem-append_left _ (entry_of is_blank loads to_record text) m))

  pub shut_down-IsKept :
      (fails : R → List String → Bool) (s : Process R)
      → s.pending ≡ []
      → IsCovered s
      → (r : R) → IsKept r s
      → IsKept r (shut_down id_of fails s)
  unfolding shut_down
  shut_down-IsKept fails s quiet (ends, tracked) r (inl row) =
      inl (stop-grows id_of fails s.worker s.ids (id_of r) row)
  shut_down-IsKept fails s quiet (ends, tracked) r (inr m) =
      elim (Bool-cases (stop id_of fails s.worker s.ids).0) [
        | inr failed ↦ inr (rw failed m)
        | inl success ↦ inl (elim (tracked r m) [
          | inl row ↦ stop-grows id_of fails s.worker s.ids (id_of r) row
          | inr (inl waiting) ↦ absurd (elim (subst (λ l. Memᴰ r l) quiet waiting) [ ])
          | inr (inr held) ↦ stop-contains id_of fails s.worker s.ids success held
        ])
      ]

  module _ (dumps : R → String) (queue_size : ℕ) where
    pub log_request-IsCovered :
        (r : R) (s : Process R)
        → IsReadBack id_of dumps is_blank loads to_record queue_size r
        → IsCovered s
        → IsCovered (log_request dumps r s)
    unfolding log_request
    log_request-IsCovered r s own (ends, tracked) =
        let (appended, ends') =
          append_event-read_events is_blank loads to_record dumps r s.wal ends own in
        (
          ends',
          λ q m.
              elim (mem-snoc (read_events is_blank loads to_record s.wal) (some r)
                (subst (λ es. Memᴰ (some q) es) appended m)) [
                  | inr new ↦ inr (inl (head (some_injective new)))
                  | inl old ↦ elim (tracked q old) [
                    | inl row ↦ inl row
                    | inr (inl waiting) ↦ inr (inl (tail waiting))
                    | inr (inr held) ↦ inr (inr held)
                  ]
                ],
        )

    pub Step-IsCovered :
        {s t : Process R}
        → Step id_of dumps is_blank loads to_record queue_size s t
        → IsCovered s
        → IsCovered t
    Step-IsCovered (logged r s own) h = log_request-IsCovered r s own h
    Step-IsCovered (queued r earlier later w s split room) (ends, tracked) =
        let (put, kept) = enqueue-holds queue_size r s.worker w room in
        (
          ends,
          λ q m. elim (tracked q m) [
            | inl row ↦ inl row
            | inr (inr held) ↦ inr (inr (kept q held))
            | inr (inl waiting) ↦
                elim (mem-middle earlier r later (subst (λ l. Memᴰ q l) split waiting)) [
                  | inl e ↦ inr (inr (subst (λ x. IsHeldBy x w) (sym e) put))
                  | inr still ↦ inr (inl still)
                ]
          ],
        )
    Step-IsCovered (taken w s got) (ends, tracked) = (
      ends,
      λ q m. elim (tracked q m) [
        | inl row ↦ inl row
        | inr (inl waiting) ↦ inr (inl waiting)
        | inr (inr held) ↦ inr (inr (take-holds s.worker w got q held))
      ],
    )
    Step-IsCovered (attempted fails s) (ends, tracked) =
        let (tried, grown, same) = attempt-contains id_of fails s.worker s.ids in
        (
          ends,
          λ q m. elim (tracked q m) [
            | inl row ↦ inl (grown (id_of q) row)
            | inr (inl waiting) ↦ inr (inl waiting)
            | inr (inr (inr waits)) ↦ inr (inr (inr (rw same waits)))
            | inr (inr (inl busy)) ↦ elim (tried q busy) [
              | inl row ↦ inl row
              | inr unchanged ↦ inr (inr (inl (rw unchanged busy)))
            ]
          ],
        )
    Step-IsCovered (crashed fails s done) h = start-IsCovered fails s done
    Step-IsCovered (crashed_writing fails text s done) h =
        start-IsCovered fails (cut_short text s) done
    Step-IsCovered (restarted fails fails' s quiet done) h =
        start-IsCovered fails' (shut_down id_of fails s) done

    pub Step-IsKept :
        {s t : Process R} (r : R)
        → Step id_of dumps is_blank loads to_record queue_size s t
        → IsCovered s
        → IsKept r s
        → IsKept r t
    unfolding log_request
    Step-IsKept r (logged q s own) h (inl row) = inl row
    Step-IsKept r (logged q s own) (ends, tracked) (inr m) =
        let (appended, ends') =
          append_event-read_events is_blank loads to_record dumps q s.wal ends own in
        inr (subst (λ es. Memᴰ (some r) es) (sym appended) (mem-append_left _ (some q ∷ []) m))
    Step-IsKept r (queued q earlier later w s split room) h kept = kept
    Step-IsKept r (taken w s got) h kept = kept
    Step-IsKept r (attempted fails s) h (inl row) =
        inl ((attempt-contains id_of fails s.worker s.ids).1 (id_of r) row)
    Step-IsKept r (attempted fails s) h (inr m) = inr m
    Step-IsKept r (crashed fails s done) h kept = start-IsKept fails s done r kept
    Step-IsKept r (crashed_writing fails text s done) (ends, tracked) kept =
        start-IsKept fails (cut_short text s) done r (cut_short-IsKept text s ends r kept)
    Step-IsKept r (restarted fails fails' s quiet done) h kept =
        start-IsKept fails' (shut_down id_of fails s) done r
          (shut_down-IsKept fails s quiet h r kept)
