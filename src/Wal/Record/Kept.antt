-- ===== src/Wal/Record/Kept.antt =====
-- What a request that was logged can count on, with the lines that burnlens/storage/wal.py writes.
use burnlens.Prelude.{ℕ, ◌≡◌, String, Bool, Option, some, List}
use burnlens.Prelude.Dict.{Dict, lookup}
use burnlens.Wal.Process.{Process, log_request, start}
use burnlens.Wal.Steps.{Recovers, Reach}
use burnlens.Wal.Durability.{IsKept}
use burnlens.Wal.Lifespan.{log_request-IsKept}
use burnlens.Wal.Record.{
  Value, text, request_fields, with_event_id, post_init, record_to_dict, without_z,
}
use burnlens.Wal.Record.Laws.{names, IsStamped}
use burnlens.Wal.Record.Line.{IsJson, line_of, from_dict, line_of-entry_of}

-- the event id of a record that has one
abbrev pub text_or_empty : {F T : Type 0} → Option (Value F T) → String
text_or_empty (some (text s)) = s
text_or_empty _ = ""

abbrev pub event_id : {F T : Type 0} → Dict (Value F T) → String
event_id r = text_or_empty (lookup "event_id" r)

module _ {F T : Type 0} (is_zero : F → Bool) (zero_usd : F) (fromisoformat : String → Option T)
    (isoformat : T → String) (now : T) (is_blank : String → Bool)
    (json_dumps : Dict (Value F T) → String) (loads : String → Option (Dict (Value F T)))
    (queue_size : ℕ) where
  abbrev read_back : Dict (Value F T) → Option (Dict (Value F T))
  read_back = from_dict is_zero zero_usd fromisoformat isoformat now is_blank json_dumps loads

  abbrev line : Dict (Value F T) → String
  line = line_of is_zero isoformat json_dumps

  -- A request that is logged after a recovery without an exception is in the log or in the database
  -- from then on: through failed insertions, crashes, also in the middle of a write, and shutdowns
  -- during which no request is logged or waits for the queue, as long as each next recovery ends
  -- without an exception and every other request that is logged is read back from its own line. The
  -- request has, with its event id, the class's fields, of which the timestamp alone is an instant,
  -- which `fromisoformat` reads; `__post_init__` leaves it as it is and `json` reads back its
  -- dictionary.
  pub request-IsKept :
      (fails : Dict (Value F T) → List String → Bool) (s : Process (Dict (Value F T))) (id : String)
      (t : T) (r : Dict (Value F T)) {p u : Process (Dict (Value F T))}
      → Recovers event_id line is_blank loads read_back queue_size fails s
      → Reach event_id line is_blank loads read_back queue_size
          (start event_id fails is_blank loads read_back s)
          p
      → let sent = with_event_id is_zero id r in
        IsJson is_blank json_dumps loads (record_to_dict isoformat sent)
        → names sent ≡ names request_fields
        → IsStamped isoformat t sent
        → fromisoformat (without_z (isoformat t)) ≡ some t
        → post_init is_zero sent ≡ some sent
        → Reach event_id line is_blank loads read_back queue_size (log_request line sent p) u
        → IsKept event_id is_blank loads read_back sent u
  request-IsKept fails s id t r done before json named stamped dated filled after =
      let sent = with_event_id is_zero id r in
      log_request-IsKept event_id line is_blank loads read_back queue_size fails s sent done before
        (line_of-entry_of is_zero zero_usd fromisoformat isoformat now is_blank json_dumps loads t
          sent json named stamped dated filled)
        after
