-- ===== src/Wal/Tests.antt =====
-- The theorems on the log at work: two requests, each with its line.
use burnlens.Prelude.{
  ◌≡◌, refl, String, Bool, true, false, Option, none, some, List, [], ◌∷◌, ◌++◌, ◌==◌, inl,
  if◌then◌else◌,
}
use burnlens.Prelude.Lists.{contains}
use burnlens.Wal.File.{
  LogFile, append_event, truncate, entry_of, entries_of, read_lines, read_events, write, write_all,
}
use burnlens.Wal.File.Append.{IsWhole, append_event-read_events}
use burnlens.Wal.Recovery.{insert_request, replay, recover_wal}
use burnlens.Wal.Repair.{repair_wal, replay_lines, replay_dlq}
use burnlens.Wal.Repair.Laws.{repair_wal-read_events}
use burnlens.Wal.Worker.{new_worker, stop, persist_active, drain}
use burnlens.Wal.Process.{Process, start, shut_down}
use burnlens.Wal.Steps.{here}
use burnlens.Wal.Lifespan.{shut_down_complete, start-unrecovered}

data Request : Type 0 where
  first : Request
  second : Request

abbrev id_of : Request → String
id_of first = "e-1"
id_of second = "e-2"

abbrev dumps : Request → String
dumps first = "{1}"
dumps second = "{2}"

abbrev is_blank : String → Bool
is_blank s = s == ""

abbrev loads : String → Option Request
loads s = if s == "{1}" then some first else if s == "{2}" then some second else none

abbrev to_record : Request → Option Request
to_record r = some r

-- SQLite refuses the second request.
abbrev fails : Request → List String → Bool
fails first ids = false
fails second ids = true

own : (r : Request) → entry_of is_blank loads to_record (dumps r) ≡ some r ∷ []
unfolding entry_of
own first = refl
own second = refl

abbrev log : LogFile
log = record { lines = "{1}" ∷ "{" ∷ []; tail = none }

-- The line that a crash left takes the next event with it.
torn_append :
    read_events is_blank loads to_record
      (some (append_event dumps first (some (record { lines = []; tail = some "{" }))))
    ≡ []
unfolding read_events append_event write read_lines entries_of entry_of
torn_append = refl

replayed :
    replay_dlq is_blank loads id_of fails to_record
      (some (record { lines = "{1}" ∷ "{2}" ∷ "" ∷ "{" ∷ []; tail = none }))
      []
    ≡ (1, 2, some (record { lines = "{2}" ∷ "{" ∷ []; tail = none }), "e-1" ∷ [])
unfolding replay_dlq replay_lines read_lines insert_request write_all write
replayed = refl

append_event-read_events_example :
    (read_events is_blank loads to_record (some (append_event dumps second (some log)))
      ≡ read_events is_blank loads to_record (some log) ++ some second ∷ [])
    × IsWhole (some (append_event dumps second (some log)))
append_event-read_events_example =
    append_event-read_events is_blank loads to_record dumps second (some log) refl (own second)

repair_wal-read_events_example :
    let (valid, corrupt, wal', dlq') = repair_wal is_blank loads (some log) none in
    (read_events is_blank loads to_record wal' ≡ read_events is_blank loads to_record (some log))
    × (repair_wal is_blank loads wal' dlq' ≡ (valid, 0, wal', dlq'))
repair_wal-read_events_example = repair_wal-read_events is_blank loads to_record (some log) none

abbrev before : Process Request
before = record { wal = some log; ids = []; pending = []; worker = new_worker }

abbrev started : Process Request
started = start id_of fails is_blank loads to_record before

shut_down_complete_example :
    let t = shut_down id_of fails started in
    (contains t.ids "e-1" ≡ true) × (read_events is_blank loads to_record t.wal ≡ [])
unfolding start recover_wal replay read_events read_lines entries_of entry_of insert_request
    truncate stop persist_active drain
shut_down_complete_example =
    shut_down_complete id_of dumps is_blank loads to_record 1000 fails fails before first refl here
      refl refl (inl refl)

abbrev refused : Process Request
refused = record before { wal = some (record log { lines = "{2}" ∷ [] }) }

start-unrecovered_example :
    let s' = start id_of fails is_blank loads to_record refused in
    let t = shut_down id_of fails s' in
    (s'.wal ≡ refused.wal) × (t.ids ≡ s'.ids) × (read_events is_blank loads to_record t.wal ≡ [])
unfolding replay read_events read_lines entries_of entry_of insert_request
start-unrecovered_example =
    start-unrecovered id_of dumps is_blank loads to_record 1000 fails fails refused refl
