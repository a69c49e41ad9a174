-- ===== src/Wal/Record/Tests.antt =====
-- A request with its tags, written to a dictionary and read back.
use burnlens.Prelude.{
  ◌++◌, List, false, ◌≡◌, refl, inl, inr, ℕ, String, Bool, Option, none, some, [], ◌∷◌, ◌==◌, ◌==ℕ◌,
  if◌then◌else◌,
}
use burnlens.Prelude.Dict.{Dict, lookup, insert}
use burnlens.Wal.Record.{
  Value, text, tags, FieldList, default_value, request_fields, assigned, post_init, fill,
  record_to_dict, dict_to_record, without_z, with_event_id, with_timestamp,
}
use burnlens.Wal.File.{append_event, write, read_lines, entries_of, entry_of, read_events, truncate}
use burnlens.Wal.Recovery.{insert_request, replay, recover_wal}
use burnlens.Wal.Worker.{new_worker}
use burnlens.Wal.Process.{Process, log_request, start}
use burnlens.Wal.Steps.{crashed, here, next}
use burnlens.Wal.Durability.{IsKept}
use burnlens.Wal.Record.Kept.{event_id, request-IsKept}
use burnlens.Wal.Record.Line.{line_of, append_request, append_request-read_events}
use burnlens.Wal.Record.Laws.{record_to_dict-dict_to_record}

abbrev is_zero : ℕ → Bool
is_zero n = n ==ℕ 0

-- The instants are two numbers.
abbrev isoformat : ℕ → String
isoformat n = if n ==ℕ 7 then "2026-05-01T00:00:00+00:00" else "2026-05-02T00:00:00+00:00"

abbrev fromisoformat : String → Option ℕ
fromisoformat s = if s == "2026-05-01T00:00:00+00:00" then some 7 else none

abbrev given : Option (Value ℕ ℕ) → Value ℕ ℕ
given none = text "openai"
given (some v) = v

-- a record of the class's fields with their defaults
abbrev defaults : FieldList → Dict (Value ℕ ℕ)
defaults [] = []
defaults ((k, d) ∷ fs) = (k, given (default_value 0 7 d)) ∷ defaults fs

abbrev tagged : Dict (Value ℕ ℕ)
tagged = insert "tags" (tags (("agent_id", "reviewer") ∷ [])) (defaults request_fields)

without_z_z : without_z "2026-05-01T00:00:00Z" ≡ "2026-05-01T00:00:00+00:00"
unfolding without_z
without_z_z = refl

-- The agent's id is taken from the tags.
agent_from_tags :
    lookup "agent_id" (fill is_zero (("agent_id", "reviewer") ∷ []) ("agent_id" ∷ []) tagged)
    ≡ some (text "reviewer")
unfolding fill request_fields
agent_from_tags = refl

-- A field that the class does not have is dropped, and one without a default is required.
missing_model :
    dict_to_record is_zero 0 fromisoformat 9 request_fields
      (("provider", text "openai") ∷ ("unknown", text "x") ∷ [])
    ≡ none
unfolding dict_to_record request_fields assigned with_timestamp
missing_model = refl

record_to_dict-dict_to_record_example :
    dict_to_record is_zero 0 fromisoformat 9 request_fields (record_to_dict isoformat tagged)
    ≡ post_init is_zero tagged
unfolding request_fields record_to_dict without_z
record_to_dict-dict_to_record_example =
    record_to_dict-dict_to_record is_zero 0 fromisoformat isoformat 9 7 tagged refl
      (inr (refl, refl, inr (refl, refl, inr (refl, refl, inl (refl, refl, refl))))) refl

abbrev plain : Dict (Value ℕ ℕ)
plain = defaults request_fields

abbrev sent : Dict (Value ℕ ℕ)
sent = with_event_id is_zero "e-1" plain

-- `json` as far as the request needs it
abbrev json_dumps : Dict (Value ℕ ℕ) → String
json_dumps d = "{}"

abbrev loads : String → Option (Dict (Value ℕ ℕ))
loads s = if s == "{}" then some (record_to_dict isoformat sent) else none

abbrev is_blank : String → Bool
is_blank s = s == ""

sent_id : lookup "event_id" sent ≡ some (text "e-1")
unfolding with_event_id request_fields
sent_id = refl

append_request-read_events_example :
    read_events is_blank loads
      (dict_to_record is_zero 0 fromisoformat 9 request_fields)
      (some (append_request is_zero isoformat json_dumps "e-1" plain none))
    ≡ read_events is_blank loads (dict_to_record is_zero 0 fromisoformat 9 request_fields) none
      ++ some sent ∷ []
unfolding request_fields record_to_dict without_z with_event_id post_init
append_request-read_events_example =
    append_request-read_events is_zero 0 fromisoformat isoformat 9 is_blank json_dumps loads "e-1" 7
      plain none refl (record { dumps_not_blank = refl; loads-dumps = refl }) refl
      (inr (refl, refl, inr (refl, refl, inr (refl, refl, inl (refl, refl, refl))))) refl refl

abbrev before : Process (Dict (Value ℕ ℕ))
before = record { wal = none; ids = []; pending = []; worker = new_worker }

-- The database takes every record.
abbrev fails : Dict (Value ℕ ℕ) → List String → Bool
fails r ids = false

-- the functions of the log with the lines of this test
abbrev read_back : Dict (Value ℕ ℕ) → Option (Dict (Value ℕ ℕ))
read_back = dict_to_record is_zero 0 fromisoformat 9 request_fields

abbrev line : Dict (Value ℕ ℕ) → String
line = line_of is_zero isoformat json_dumps

abbrev at_work : Process (Dict (Value ℕ ℕ))
at_work = log_request line sent (start event_id fails is_blank loads read_back before)

-- A crash follows, and the next process recovers the log.
request-IsKept_example :
    IsKept event_id is_blank loads read_back sent
      (start event_id fails is_blank loads read_back at_work)
unfolding request_fields record_to_dict without_z with_event_id post_init replay read_events start
    recover_wal log_request append_event write read_lines entries_of entry_of insert_request
    truncate line_of dict_to_record with_timestamp assigned
request-IsKept_example =
    request-IsKept is_zero 0 fromisoformat isoformat 9 is_blank json_dumps loads 1000 fails before
      "e-1" 7 plain refl here (record { dumps_not_blank = refl; loads-dumps = refl }) refl
      (inr (refl, refl, inr (refl, refl, inr (refl, refl, inl (refl, refl, refl))))) refl refl
      (next here (crashed fails at_work refl))
