-- ===== src/Execution/Tests.antt =====
-- The theorems on assisted execution at work: a provider that counts its calls.
use burnlens.Prelude.{
  ℕ, ◌+◌, ◌≡◌, ◌≢◌, refl, ◌↔◌, String, true, false, none, some, List, [], ◌∷◌, ◌==◌, arith,
  if◌then◌else◌,
}
use burnlens.Execution.Models.{
  completed, denied, ApprovalToken, ExecutionRequest, ExecutionResult, ExecutionTimelineEvent,
  ExecutionTexts, token_denial, scope_denial, first_unscoped, is_signed, is_protected_branch,
  is_scoped,
}
use burnlens.Execution.Storage.{
  ExecutionRecord, ExecutionStorage, replay, has_key, mark_token_consumed, get_approval_token,
  get_by_idempotency, get_timeline, save_execution,
}
use burnlens.Execution.Service.{
  execute_new, denial, first_denial, finish, run_workflow, attempt, commit_scoped_changes,
  completion, create_branch, event, returned, GitProviderClient, current_binding, synced, is_spent,
  execute,
}
use burnlens.Execution.Service.Approval.{MayExecute, execute_denied_iff}
use burnlens.Execution.Service.Replay.{execute_replays}
use burnlens.Execution.Service.SingleUse.{execute_once}

abbrev texts : ExecutionTexts
texts = record {
  clean = λ s. s;
  fnmatch = λ s p. s == p;
  payload_hash = λ c. "payload";
  binding_hash = λ b. b.target_branch;
  sign = λ id hash workspace approver expires. hash;
}

abbrev client : GitProviderClient ℕ
client = record {
  create_branch = λ repo base branch g. (returned tt, g + 1);
  commit_files = λ repo branch files message g. (returned (some "sha-1"), g + 1);
  create_pull_request = λ repo title body head base g. (returned (some 101, none), g + 1);
  get_ci_status = λ repo ref g. (returned "pending", g + 1);
}

abbrev by_time : List ExecutionTimelineEvent → List ExecutionTimelineEvent
by_time events = events

abbrev request : String → ExecutionRequest
request key = record {
  execution_id = "exec-1";
  workspace_id = "acme";
  agent_id = "coder";
  task_id = "task-1";
  recommendation_id = "rec-1";
  repo = "acme/app";
  target_branch = "burnlens/rec-1";
  scoped_files = "app.py" ∷ [];
  changes = ("app.py", "pass") ∷ [];
  idempotency_key = key;
  base_branch = "main";
}

abbrev token : ApprovalToken
token = record {
  token_id = "appr-1";
  binding_hash = "burnlens/rec-1";
  workspace_id = "acme";
  approver = "ada";
  approved_at = 100;
  expires_at = 200;
  signature = "burnlens/rec-1";
  consumed = false;
  nonce = "";
}

abbrev result : ExecutionResult
result = record {
  execution_id = "exec-0";
  status = completed;
  workspace_id = "acme";
  repo = "acme/app";
  branch_name = none;
  commit_sha = none;
  pr_number = none;
  pr_url = none;
  ci_status = none;
  is_unmerged = true;
  idempotent_replay = false;
  error = none;
  timeline = [];
  executed_at = 90;
}

abbrev row : ExecutionRecord
row = record {
  result = result;
  agent_id = "coder";
  task_id = "task-0";
  recommendation_id = "rec-0";
  base_branch = "main";
  target_branch = "burnlens/rec-0";
  idempotency_key = "key-0";
}

abbrev storage : ExecutionStorage
storage = record {
  tokens = λ id. if id == "appr-1" then some token else none;
  records = row ∷ [];
  events = [];
}

abbrev stored_result : ExecutionResult
stored_result = record result { idempotent_replay = true }

stored : get_by_idempotency by_time "acme" "key-0" storage ≡ some stored_result
unfolding get_by_idempotency has_key replay get_timeline
stored = refl

new : get_by_idempotency by_time "acme" "key-1" storage ≡ none
unfolding get_by_idempotency has_key
new = refl

may : MayExecute texts client (request "key-1") token 150 storage
unfolding is_signed current_binding synced is_spent get_approval_token is_protected_branch is_scoped
may = record {
  tenant = refl;
  signed = refl;
  bound = refl;
  live = omega arith;
  unused = refl;
  unprotected = refl;
  scoped = (refl, tt);
}

execute_replays_example :
    let (x, s', _) = execute texts client (request "key-1") token 150 by_time storage 0 in
    execute texts client (request "key-1") token 990 by_time s' 7 ≡ (
      record x { idempotent_replay = true; timeline = get_timeline by_time x.execution_id s' },
      s',
      7,
    )
execute_replays_example =
    execute_replays texts client by_time (request "key-1") (request "key-1") token token 150 990
      storage 0 7 new refl refl

execute_denied_iff_example :
    let (x, s', g') = execute texts client (request "key-1") token 150 by_time storage 0 in
    ((x.status ≢ denied) ↔ MayExecute texts client (request "key-1") token 150 storage)
    × (x.status ≡ denied → (g' ≡ 0) × (s'.tokens ≡ storage.tokens))
    × (MayExecute texts client (request "key-1") token 150 storage
        → s'.tokens ≡ (mark_token_consumed "appr-1" storage).tokens)
    × (x.is_unmerged ≡ true)
execute_denied_iff_example =
    execute_denied_iff texts client (request "key-1") token 150 by_time storage 0 new

later_is_new :
    get_by_idempotency by_time "acme" "key-2"
      (execute texts client (request "key-1") token 150 by_time storage 0).1
    ≡ none
unfolding get_by_idempotency has_key execute save_execution execute_new denial first_denial
    token_denial is_signed synced is_spent get_approval_token current_binding scope_denial
    is_protected_branch first_unscoped is_scoped finish mark_token_consumed run_workflow attempt
    commit_scoped_changes completion create_branch event replay
later_is_new = refl

execute_once_example :
    (execute texts client
      (request "key-2")
      token
      160
      by_time
      (execute texts client (request "key-1") token 150 by_time storage 0).1
      0).0.status
    ≡ denied
execute_once_example =
    execute_once texts client by_time (request "key-1") (request "key-2") token token token 150 160
      storage 0 0 new may refl refl refl later_is_new
