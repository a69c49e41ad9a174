-- ===== src/Execution/Storage.antt =====
-- The tables of burnlens/execution/storage.py. Timeline events have fresh ids, so saving appends them;
-- the order that SQLite gives events of one instant is a parameter.
use mathlib.Core.Option
use burnlens.Prelude.{
  String, Bool, true, not, ◌&&◌, ◌||◌, Option, none, some, List, [], ◌∷◌, ◌++◌, ◌==◌, if◌then◌else◌,
}
use burnlens.Prelude.Lists.{filter, find_first}
use burnlens.Execution.Models.{
  ApprovalToken, ExecutionRequest, ExecutionTimelineEvent, ExecutionResult,
}

-- a row of `execution_records`; the timeline of its result is in the other table
pub record ExecutionRecord : Type 0 where
  pub result : ExecutionResult
  pub agent_id : String
  pub task_id : String
  pub recommendation_id : String
  pub base_branch : String
  pub target_branch : String
  pub idempotency_key : String

pub record ExecutionStorage : Type 0 where
  pub tokens : String → Option ApprovalToken
  pub records : List ExecutionRecord
  pub events : List ExecutionTimelineEvent

-- `save_approval_token`
unfoldable pub save_approval_token : ApprovalToken → ExecutionStorage → ExecutionStorage
save_approval_token t s = record s {
  tokens = λ id. if id == t.token_id then some t else s.tokens id;
}

consume : Option ApprovalToken → Option ApprovalToken
consume none = none
consume (some t) = some (record t { consumed = true })

-- `mark_token_consumed`
unfoldable pub mark_token_consumed : String → ExecutionStorage → ExecutionStorage
unfolding consume
mark_token_consumed token_id s = record s {
  tokens = λ id. if id == token_id then consume (s.tokens id) else s.tokens id;
}

of_workspace : String → Option ApprovalToken → Option ApprovalToken
of_workspace workspace none = none
of_workspace workspace (some t) = if t.workspace_id == workspace then some t else none

-- `get_approval_token`
unfoldable pub get_approval_token : String → String → ExecutionStorage → Option ApprovalToken
unfolding of_workspace
get_approval_token token_id workspace s = of_workspace workspace (s.tokens token_id)

-- the unique index on the workspace and the idempotency key
unfoldable pub has_key : String → String → ExecutionRecord → Bool
has_key workspace key x = x.result.workspace_id == workspace && x.idempotency_key == key

module _ (by_time : List ExecutionTimelineEvent → List ExecutionTimelineEvent) where
  -- `get_timeline`
  unfoldable pub get_timeline : String → ExecutionStorage → List ExecutionTimelineEvent
  get_timeline execution_id s = by_time (filter (λ e. e.execution_id == execution_id) s.events)

  unfoldable pub replay : ExecutionStorage → ExecutionRecord → ExecutionResult
  replay s x = record x.result {
    idempotent_replay = true;
    timeline = get_timeline x.result.execution_id s;
  }

  -- `get_by_idempotency`
  unfoldable pub get_by_idempotency : String → String → ExecutionStorage → Option ExecutionResult
  get_by_idempotency workspace key s =
      Option.map (replay s) (find_first (has_key workspace key) s.records)

-- `save_execution`: `INSERT OR REPLACE` removes the rows that share the id or the key
unfoldable pub save_execution :
    ExecutionResult → ExecutionRequest → ExecutionStorage → ExecutionStorage
save_execution x r s =
    let row : ExecutionRecord = record {
      result = x;
      agent_id = r.agent_id;
      task_id = r.task_id;
      recommendation_id = r.recommendation_id;
      base_branch = r.base_branch;
      target_branch = r.target_branch;
      idempotency_key = r.idempotency_key;
    } in
    record s {
      records =
          filter
            (λ y. not (
              y.result.execution_id == x.execution_id
              || has_key x.workspace_id r.idempotency_key y))
            s.records
          ++ row ∷ [];
      events = s.events ++ x.timeline;
    }
