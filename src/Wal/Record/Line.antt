-- ===== src/Wal/Record/Line.antt =====
-- `append_event` of burnlens/storage/wal.py with the dictionary of the request. `json_dumps` and
-- `loads` are `json.dumps` and `json.loads`.
use burnlens.Prelude.{◌≡◌, refl, String, Bool, false, Option, some, [], ◌∷◌, ◌++◌}
use burnlens.Prelude.Dict.{Dict}
use burnlens.Wal.File.{LogFile, append_event, entry_of, parsed, read_events}
use burnlens.Wal.File.Append.{IsWhole, append_event-read_events}
use burnlens.Wal.Record.{
  Value, request_fields, with_event_id, post_init, record_to_dict, without_z, dict_to_record,
}
use burnlens.Wal.Record.Laws.{names, IsStamped, record_to_dict-dict_to_record}

module _ {F T : Type 0} (is_zero : F → Bool) (isoformat : T → String)
    (json_dumps : Dict (Value F T) → String) where
  unfoldable pub line_of : Dict (Value F T) → String
  line_of r = json_dumps (record_to_dict isoformat r)

  -- `append_event`, where `uuid7` returns `id`
  unfoldable pub append_request : String → Dict (Value F T) → Option LogFile → LogFile
  unfolding line_of
  append_request id r path = append_event line_of (with_event_id is_zero id r) path

-- What the log relies on in `json` for a dictionary: it is read back, from a line that is not blank.
pub record IsJson {F T : Type 0} (is_blank : String → Bool) (json_dumps : Dict (Value F T) → String)
    (loads : String → Option (Dict (Value F T))) (d : Dict (Value F T)) : Type 0 where
  pub dumps_not_blank : is_blank (json_dumps d) ≡ false
  pub loads-dumps : loads (json_dumps d) ≡ some d

module _ {F T : Type 0} (is_zero : F → Bool) (zero_usd : F) (fromisoformat : String → Option T)
    (isoformat : T → String) (now : T) (is_blank : String → Bool)
    (json_dumps : Dict (Value F T) → String) (loads : String → Option (Dict (Value F T))) where
  abbrev pub from_dict : Dict (Value F T) → Option (Dict (Value F T))
  from_dict = dict_to_record is_zero zero_usd fromisoformat now request_fields

  -- A request that has the class's fields, the timestamp alone an instant, and that `__post_init__`
  -- leaves as it is, is read back from its line.
  pub line_of-entry_of :
      (t : T) (r : Dict (Value F T))
      → IsJson is_blank json_dumps loads (record_to_dict isoformat r)
      → names r ≡ names request_fields
      → IsStamped isoformat t r
      → fromisoformat (without_z (isoformat t)) ≡ some t
      → post_init is_zero r ≡ some r
      → entry_of is_blank loads from_dict (line_of is_zero isoformat json_dumps r) ≡ some r ∷ []
  unfolding entry_of parsed line_of
  line_of-entry_of t r json named stamped dated filled =
      rw
        (
          json.dumps_not_blank,
          json.loads-dumps,
          record_to_dict-dict_to_record is_zero zero_usd fromisoformat isoformat now t r named
              stamped dated,
          filled,
        )
        refl

  -- A request that is appended to a log that ends with a newline is read back after what was in the
  -- log, with its event id: if with that id it has the class's fields, of which the timestamp alone
  -- is an instant, which `fromisoformat` reads, and `__post_init__` leaves it as it is, and if `json` reads back its dictionary.
  pub append_request-read_events :
      (id : String) (t : T) (r : Dict (Value F T)) (path : Option LogFile)
      → IsWhole path
      → let sent = with_event_id is_zero id r in
        IsJson is_blank json_dumps loads (record_to_dict isoformat sent)
        → names sent ≡ names request_fields
        → IsStamped isoformat t sent
        → fromisoformat (without_z (isoformat t)) ≡ some t
        → post_init is_zero sent ≡ some sent
        → read_events is_blank loads from_dict
            (some (append_request is_zero isoformat json_dumps id r path))
          ≡ read_events is_blank loads from_dict path ++ some sent ∷ []
  unfolding append_request
  append_request-read_events id t r path whole json named stamped dated filled =
      (append_event-read_events is_blank loads from_dict (line_of is_zero isoformat json_dumps)
        (with_event_id is_zero id r) path whole
        (line_of-entry_of t (with_event_id is_zero id r) json named stamped dated filled)).0
