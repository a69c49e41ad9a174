-- ===== src/Guardrails/Storage.antt =====
-- The tables of burnlens/guardrails/storage.py. A table with a primary key is a function of the key,
-- and the ids of decisions are fresh, so that recording one appends it.
use burnlens.Prelude.{
  ◌+◌, String, Bool, true, not, ◌&&◌, Option, none, some, List, [], ◌∷◌, ◌++◌, ◌==◌, if◌then◌else◌,
}
use burnlens.Prelude.Lists.{filter, find_first}
use burnlens.Float.{Float, nought}
use burnlens.Guardrails.Models.{
  TaskLifecycleState, active, paused, stopped, completed, GuardrailPolicy, Reason,
  GuardrailDecision, TaskState,
}
use burnlens.Guardrails.Detector.{one_if}

pub record GuardrailStorage (W : Type 0) : Type 0 where
  pub policies : List (GuardrailPolicy W)
  pub tasks : String → Option (TaskState W)
  pub ingested : String → Bool
  pub decisions : List (GuardrailDecision W)

-- `operator or "human_operator"`
operator_name : Option String → String
operator_name none = "human_operator"
operator_name (some operator) = if operator == "" then "human_operator" else operator

module _ {W : Type 0} where
  -- `save_policy`: `INSERT OR REPLACE`
  unfoldable pub save_policy : GuardrailPolicy W → GuardrailStorage W → GuardrailStorage W
  save_policy p s = record s {
    policies = filter (λ q. not (q.policy_id == p.policy_id)) s.policies ++ p ∷ [];
  }

  -- `get_policy`, where `by_version` is SQLite's order by descending version
  unfoldable pub get_policy :
      (List (GuardrailPolicy W) → List (GuardrailPolicy W))
      → String
      → GuardrailStorage W
      → Option (GuardrailPolicy W)
  get_policy by_version workspace s =
      find_first (λ p. p.workspace_id == workspace && p.is_active) (by_version s.policies)

  -- `record_event_ingestion`
  unfoldable pub record_event_ingestion : String → GuardrailStorage W → GuardrailStorage W
  record_event_ingestion event_id s = record s {
    ingested = λ id. if id == event_id then true else s.ingested id;
  }

  -- `WHERE task_id = ? AND workspace_id = ?`
  of_workspace : String → Option (TaskState W) → Option (TaskState W)
  of_workspace workspace none = none
  of_workspace workspace (some t) = if t.workspace_id == workspace then some t else none

  unfoldable pub find_task : String → String → GuardrailStorage W → Option (TaskState W)
  unfolding of_workspace
  find_task task workspace s = of_workspace workspace (s.tasks task)

  change_row : (TaskState W → TaskState W) → String → Option (TaskState W) → Option (TaskState W)
  change_row change workspace none = none
  change_row change workspace (some t) =
      if t.workspace_id == workspace then some (change t) else some t

  -- `UPDATE task_guardrail_state SET ... WHERE task_id = ? AND workspace_id = ?`
  unfoldable pub update_task :
      (TaskState W → TaskState W) → String → String → GuardrailStorage W → GuardrailStorage W
  unfolding change_row
  update_task change task workspace s = record s {
    tasks = λ id. if id == task then change_row change workspace (s.tasks id) else s.tasks id;
  }

  -- `record_decision`
  unfoldable pub record_decision : GuardrailDecision W → GuardrailStorage W → GuardrailStorage W
  record_decision d s = record s { decisions = s.decisions ++ d ∷ [] }

  -- the assignments of `set_task_state`
  unfoldable pub with_state :
      TaskLifecycleState → Option (Reason W) → Option String → TaskState W → TaskState W
  unfolding operator_name
  with_state active reason operator t = record t {
    state = active;
    resumed_by = some (operator_name operator);
    consecutive_tool_errors = 0;
    retry_count = 0;
  }
  with_state paused reason operator t = record t { state = paused; paused_reason = reason }
  with_state stopped reason operator t = record t { state = stopped; stopped_reason = reason }
  with_state completed reason operator t = t

  -- `set_task_state`
  unfoldable pub set_task_state :
      String
      → String
      → TaskLifecycleState
      → Option (Reason W)
      → Option String
      → GuardrailStorage W
      → GuardrailStorage W
  set_task_state task workspace state reason operator =
      update_task (with_state state reason operator) task workspace

module _ {W : Type 0} ⦃f : Float W⦄ where
  -- a row as `get_or_create_task_state` inserts it
  unfoldable pub fresh_task : String → String → TaskState W
  fresh_task workspace agent = record {
    workspace_id = workspace;
    agent_id = agent;
    state = active;
    total_cost_usd = nought;
    retry_count = 0;
    consecutive_tool_errors = 0;
    request_count = 0;
    paused_reason = none;
    resumed_by = none;
    stopped_reason = none;
  }

  -- `INSERT OR IGNORE`: a row of another workspace with this id stays
  insert_or_ignore : TaskState W → Option (TaskState W) → Option (TaskState W)
  insert_or_ignore t none = some t
  insert_or_ignore t (some old) = some old

  create_task : TaskState W → String → GuardrailStorage W → GuardrailStorage W
  unfolding insert_or_ignore
  create_task t task s = record s {
    tasks = λ id. if id == task then insert_or_ignore t (s.tasks id) else s.tasks id;
  }

  found_or_created :
      Option (TaskState W)
      → TaskState W
      → String
      → GuardrailStorage W
      → TaskState W × GuardrailStorage W
  unfolding create_task
  found_or_created (some t) fresh task s = (t, s)
  found_or_created none fresh task s = (fresh, create_task fresh task s)

  -- `get_or_create_task_state`
  unfoldable pub get_or_create_task_state :
      String → String → String → GuardrailStorage W → TaskState W × GuardrailStorage W
  unfolding found_or_created find_task
  get_or_create_task_state task workspace agent s =
      found_or_created (find_task task workspace s) (fresh_task workspace agent) task s

  -- the assignments of `update_task_metrics`
  unfoldable pub with_metrics : W → Bool → Bool → Bool → TaskState W → TaskState W
  with_metrics cost is_retry is_tool_error reset t = record t {
    total_cost_usd = f.add t.total_cost_usd cost;
    retry_count = t.retry_count + one_if is_retry;
    consecutive_tool_errors =
        if reset
        then 0
        else if is_tool_error
        then t.consecutive_tool_errors + 1
        else t.consecutive_tool_errors;
    request_count = t.request_count + 1;
  }
