-- ===== src/Wal/Record.antt =====
-- `RequestRecord` of burnlens/storage/models.py, and `_record_to_dict` and `_dict_to_record` of
-- burnlens/storage/wal.py. An instance is its `__dict__`: its values are of the types that the class's
-- annotations name, but any field may have any of them, as in Python. An exception is `none`.
-- Instants and `datetime.fromisoformat` are parameters.
pub mod Laws
pub mod Line
pub mod Kept
mod Tests
use Prim.Native.String.{len, slice, ◌++◌ as ◌⧺◌}
use burnlens.Prelude.{
  ℕ, zero, suc, String, Bool, true, false, Option, none, some, List, [], ◌∷◌, map, not, ◌&&◌, ◌-◌,
  ◌==◌, ◌>>=◌, if◌then◌else◌,
}
use burnlens.Prelude.Dict.{Dict, lookup, insert}
use burnlens.Prelude.Lists.{filter, contains}

pub data Value (F T : Type 0) : Type 0 where
  null : Value F T
  int : ℕ → Value F T
  float : F → Value F T
  text : String → Value F T
  tags : Dict String → Value F T
  datetime : T → Value F T

-- how a field gets its value when the constructor's call does not name it
pub data Default : Type 0 where
  required : Default
  current_time : Default
  zero_float : Default
  empty_tags : Default
  literal_int : ℕ → Default
  literal_text : String → Default
  none_value : Default

abbrev pub FieldList : Type 0
FieldList = List (String × Default)

-- `fields(RequestRecord)`
unfoldable pub request_fields : FieldList
request_fields =
    ("provider", required)
    ∷ ("model", required)
    ∷ ("request_path", required)
    ∷ ("timestamp", current_time)
    ∷ ("input_tokens", literal_int 0)
    ∷ ("output_tokens", literal_int 0)
    ∷ ("reasoning_tokens", literal_int 0)
    ∷ ("cache_read_tokens", literal_int 0)
    ∷ ("cache_write_tokens", literal_int 0)
    ∷ ("cost_usd", zero_float)
    ∷ ("duration_ms", zero_float)
    ∷ ("status_code", literal_int 200)
    ∷ ("tags", empty_tags)
    ∷ ("system_prompt_hash", none_value)
    ∷ ("source", literal_text "proxy")
    ∷ ("request_id", none_value)
    ∷ ("id", none_value)
    ∷ ("requested_model", none_value)
    ∷ ("routed_model", none_value)
    ∷ ("downgrade_reason", none_value)
    ∷ ("budget_remaining_usd", none_value)
    ∷ ("budget_remaining_pct", none_value)
    ∷ ("prompt_system_tokens", literal_int 0)
    ∷ ("prompt_user_tokens", literal_int 0)
    ∷ ("prompt_tools_tokens", literal_int 0)
    ∷ ("prompt_rag_tokens", literal_int 0)
    ∷ ("prompt_history_tokens", literal_int 0)
    ∷ ("cache_hit", literal_int 0)
    ∷ ("cache_saved_usd", zero_float)
    ∷ ("tool_calls", literal_int 0)
    ∷ ("event_id", none_value)
    ∷ ("trace_id", none_value)
    ∷ ("parent_span_id", none_value)
    ∷ ("workspace_id", none_value)
    ∷ ("org_id", none_value)
    ∷ ("team", none_value)
    ∷ ("feature", none_value)
    ∷ ("customer_hash", none_value)
    ∷ ("app_id", none_value)
    ∷ ("env", none_value)
    ∷ ("repo", none_value)
    ∷ ("branch", none_value)
    ∷ ("commit_sha", none_value)
    ∷ ("pricing_version", none_value)
    ∷ ("pricing_fingerprint", none_value)
    ∷ ("pricing_class", none_value)
    ∷ ("ttft_ms", none_value)
    ∷ ("agent_id", none_value)
    ∷ ("workflow_id", none_value)
    ∷ ("workflow_run_id", none_value)
    ∷ ("run_id", none_value)
    ∷ ("task_id", none_value)
    ∷ ("action_id", none_value)
    ∷ ("parent_run_id", none_value)
    ∷ ("parent_event_id", none_value)
    ∷ ("retry_of_event_id", none_value)
    ∷ ("fallback_of_event_id", none_value)
    ∷ []

module _ {F T : Type 0} (zero_usd : F) where
  abbrev pub default_value : T → Default → Option (Value F T)
  default_value now required = none
  default_value now current_time = some (datetime now)
  default_value now zero_float = some (float zero_usd)
  default_value now empty_tags = some (tags [])
  default_value now (literal_int n) = some (int n)
  default_value now (literal_text s) = some (text s)
  default_value now none_value = some null

  -- the argument of a field, or its default
  abbrev pub argument : T → Default → Option (Value F T) → Option (Value F T)
  argument now d (some v) = some v
  argument now d none = default_value now d

  -- the generated `__init__`: each field of the class in turn
  unfoldable pub assigned : T → FieldList → Dict (Value F T) → Option (Dict (Value F T))
  assigned now [] arguments = some []
  assigned now ((k, d) ∷ fs) arguments = do
    v ← argument now d (lookup k arguments)
    rest ← assigned now fs arguments
    some ((k, v) ∷ rest)

abbrev pub filled_fields : List String
filled_fields =
    "agent_id" ∷ "workflow_id" ∷ "workflow_run_id" ∷ "run_id" ∷ "task_id" ∷ "action_id"
    ∷ "parent_run_id" ∷ []

module _ {F T : Type 0} (is_zero : F → Bool) where
  -- `bool(v)`
  abbrev pub is_truthy : Value F T → Bool
  is_truthy null = false
  is_truthy (int zero) = false
  is_truthy (int (suc n)) = true
  is_truthy (float x) = not (is_zero x)
  is_truthy (text s) = not (s == "")
  is_truthy (tags []) = false
  is_truthy (tags (t ∷ ts)) = true
  is_truthy (datetime t) = true

  -- `record.event_id = record.event_id or uuid7()`
  abbrev pub or_new : String → Option (Value F T) → Dict (Value F T) → Dict (Value F T)
  or_new id none r = r
  or_new id (some v) r = if is_truthy v then r else insert "event_id" (text id) r

  unfoldable pub with_event_id : String → Dict (Value F T) → Dict (Value F T)
  with_event_id id r = or_new id (lookup "event_id" r) r

  -- `self.tags.get(k)`
  abbrev pub tag_value : Option String → Value F T
  tag_value none = null
  tag_value (some s) = text s

  -- `if not self.k: self.k = self.tags.get("k")` at each field of a list
  unfoldable pub fill : Dict String → List String → Dict (Value F T) → Dict (Value F T)
  fill ts [] r = r
  fill ts (k ∷ ks) r = elim (lookup k r) [
    | none ↦ fill ts ks r
    | some v ↦
        if is_truthy v then fill ts ks r else fill ts ks (insert k (tag_value (lookup k ts)) r)
  ]

  -- whether `self.tags` is asked for a value
  unfoldable pub is_any_missing : List String → Dict (Value F T) → Bool
  is_any_missing [] r = false
  is_any_missing (k ∷ ks) r = elim (lookup k r) [
    | none ↦ is_any_missing ks r
    | some v ↦ if is_truthy v then is_any_missing ks r else true
  ]

  -- `__post_init__`; a value other than a dictionary has no `get`
  abbrev pub filled : Dict (Value F T) → Option (Value F T) → Option (Dict (Value F T))
  filled r (some (tags ts)) = if is_truthy (tags ts) then some (fill ts filled_fields r) else some r
  filled r (some v) = if is_truthy v && is_any_missing filled_fields r then none else some r
  filled r none = none

  unfoldable pub post_init : Dict (Value F T) → Option (Dict (Value F T))
  post_init r = filled r (lookup "tags" r)

module _ {F T : Type 0} (isoformat : T → String) where
  abbrev pub to_value : Value F T → Value F T
  to_value (datetime t) = text (isoformat t)
  to_value v = v

  -- `_record_to_dict`
  unfoldable pub record_to_dict : Dict (Value F T) → Dict (Value F T)
  record_to_dict [] = []
  record_to_dict ((k, v) ∷ r) = (k, to_value v) ∷ record_to_dict r

-- `ts_str` after the replacement of a final "Z"
unfoldable pub without_z : String → String
without_z s = let n = len s in if slice s (n - 1) n == "Z" then slice s 0 (n - 1) ⧺ "+00:00" else s

module _ {F T : Type 0} (is_zero : F → Bool) (zero_usd : F) (fromisoformat : String → Option T)
    (now : T) where
  -- the conversion of "timestamp", which may raise an exception
  abbrev pub with_timestamp : Dict (Value F T) → Option (Value F T) → Option (Dict (Value F T))
  unfolding without_z
  with_timestamp d (some (text s)) = do
    t ← fromisoformat (without_z s)
    some (insert "timestamp" (datetime t) d)
  with_timestamp d v = some d

  -- `_dict_to_record`, where the class has the fields `fs`
  unfoldable pub dict_to_record : FieldList → Dict (Value F T) → Option (Dict (Value F T))
  unfolding post_init assigned
  dict_to_record fs d =
      let valid = filter (λ e. contains (map (λ f. f.0) fs) e.0) d in
      do
        arguments ← with_timestamp valid (lookup "timestamp" valid)
        r ← assigned zero_usd now fs arguments
        post_init is_zero r
