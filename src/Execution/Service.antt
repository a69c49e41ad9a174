-- ===== src/Execution/Service.antt =====
-- `AssistedExecutionService` of burnlens/execution/service.py, with the guards of
-- `GitHubExecutionAdapter` of burnlens/execution/adapter.py. The git provider's client is a
-- parameter with a state of its own; each of its calls may raise.
pub mod Approval
pub mod SingleUse
pub mod Replay
use burnlens.Prelude.{
  ℕ, String, Bool, true, false, not, ◌||◌, Option, none, some, List, [], ◌∷◌, ◌++◌, ◌==◌, or_else,
  if◌then◌else◌,
}
use burnlens.Prelude.Dict.{Dict}
use burnlens.Execution.Models.{
  ExecutionStatus, completed, failed, denied, ExecutionBinding, ApprovalToken, ExecutionRequest,
  Denial, tenant_isolation_violation, Failure, ExecutionError, for_denial, for_failure, Stage,
  recommended, denied_for, approval_verified, execution_started, branch_created, files_committed,
  pr_opened, ci_recorded, completed_safely, failed_with, ExecutionTimelineEvent, ExecutionResult,
  ExecutionTexts, create_token, token_denial, is_protected_branch, scope_denial,
}
use burnlens.Execution.Storage.{
  ExecutionStorage, save_approval_token, mark_token_consumed, get_approval_token,
  get_by_idempotency, save_execution,
}
use burnlens.Execution.Messages.{commit_message, pr_title, pr_body}

pub data Call (A : Type 0) : Type 0 where
  returned : A → Call A
  raised : Failure → Call A

-- `GitProviderClient`; of the answers only what the service reads
pub record GitProviderClient (G : Type 0) : Type 0 where
  pub create_branch : String → String → String → G → Call Unit × G
  pub commit_files : String → String → Dict String → String → G → Call (Option String) × G
  pub create_pull_request :
      String → String → String → String → String → G → Call (Option ℕ × Option String) × G
  pub get_ci_status : String → String → G → Call String × G

-- the exception of the adapter's guards, with the branch that its text quotes
unfoldable pub protected_branch_error : String → Failure
protected_branch_error branch = record { error_type = "ProtectedBranchError"; message = branch }

module _ {G : Type 0} (texts : ExecutionTexts) (client : GitProviderClient G) where
  -- `GitHubExecutionAdapter.create_branch`
  unfoldable pub create_branch : String → String → String → G → Call Unit × G
  create_branch repo base_branch new_branch g =
      if is_protected_branch texts new_branch
      then (raised (protected_branch_error new_branch), g)
      else client.create_branch repo base_branch new_branch g

  -- `GitHubExecutionAdapter.commit_scoped_changes`
  unfoldable pub commit_scoped_changes :
      String → String → Dict String → String → G → Call (Option String) × G
  commit_scoped_changes repo branch files message g =
      if is_protected_branch texts branch
      then (raised (protected_branch_error branch), g)
      else client.commit_files repo branch files message g

module _ (r : ExecutionRequest) (now : ℕ) where
  -- `record_stage`
  unfoldable pub event : Stage → ExecutionTimelineEvent
  event stage = record { execution_id = r.execution_id; stage = stage; timestamp = now }

  -- a result without a pull request
  unfoldable pub unfinished :
      ExecutionStatus → ExecutionError → List ExecutionTimelineEvent → ExecutionResult
  unfinished status error timeline = record {
    execution_id = r.execution_id;
    status = status;
    workspace_id = r.workspace_id;
    repo = r.repo;
    branch_name = none;
    commit_sha = none;
    pr_number = none;
    pr_url = none;
    ci_status = none;
    is_unmerged = true;
    idempotent_replay = false;
    error = some error;
    timeline = timeline;
    executed_at = now;
  }

  unfoldable pub denial_result : Denial → ExecutionResult
  denial_result d = unfinished denied (for_denial d) (event recommended ∷ event (denied_for d) ∷ [])

  -- the `except` clause, or the next step of the `try` block
  unfoldable pub attempt :
      {G A : Type 0}
      → Call A × G
      → List ExecutionTimelineEvent
      → (A → G → ExecutionResult × G)
      → ExecutionResult × G
  attempt (raised e, g) timeline next =
      (unfinished failed (for_failure e) (timeline ++ event (failed_with e) ∷ []), g)
  attempt (returned a, g) timeline next = next a g

  unfoldable pub completion :
      Option String
      → Option ℕ
      → Option String
      → String
      → List ExecutionTimelineEvent
      → ExecutionResult
  completion commit_sha pr_number pr_url ci_status timeline = record {
    execution_id = r.execution_id;
    status = completed;
    workspace_id = r.workspace_id;
    repo = r.repo;
    branch_name = some r.target_branch;
    commit_sha = commit_sha;
    pr_number = pr_number;
    pr_url = pr_url;
    ci_status = some ci_status;
    is_unmerged = true;
    idempotent_replay = false;
    error = none;
    timeline = timeline ++ event (ci_recorded ci_status) ∷ event (completed_safely pr_number) ∷ [];
    executed_at = now;
  }

-- the first of two checks that fails
unfoldable pub first_denial : Option Denial → Option Denial → Option Denial
first_denial (some d) e = some d
first_denial none e = e

-- `db_token and db_token.consumed`
unfoldable pub is_spent : Option ApprovalToken → Bool
is_spent none = false
is_spent (some stored) = stored.consumed

-- `commit_sha or request.target_branch`
unfoldable pub ci_ref : Option String → String → String
ci_ref none branch = branch
ci_ref (some sha) branch = if sha == "" then branch else sha

module _ {G : Type 0} (texts : ExecutionTexts) (client : GitProviderClient G) (r : ExecutionRequest)
    (t : ApprovalToken) (now : ℕ) where
  -- step 7
  unfoldable pub run_workflow : List ExecutionTimelineEvent → G → ExecutionResult × G
  run_workflow timeline g =
      let l₁ = timeline ++ event r now execution_started ∷ [] in
      attempt r now (create_branch texts client r.repo r.base_branch r.target_branch g) l₁ (λ _ g₁.
        let l₂ = l₁ ++ event r now branch_created ∷ [] in
        attempt r now
          (commit_scoped_changes texts client r.repo r.target_branch r.changes
            (commit_message r t.approver) g₁)
          l₂
          (λ sha g₂.
            let l₃ = l₂ ++ event r now files_committed ∷ [] in
            attempt r now
              (client.create_pull_request r.repo (pr_title r) (pr_body r t.approver) r.target_branch
                r.base_branch g₂)
              l₃
              (λ pr g₃.
                let l₄ = l₃ ++ event r now (pr_opened pr.0) ∷ [] in
                attempt r now (client.get_ci_status r.repo (ci_ref sha r.target_branch) g₃) l₄
                  (λ ci g₄. (completion r now sha pr.0 pr.1 ci l₄, g₄)))))

  -- step 3
  unfoldable pub current_binding : ExecutionBinding
  current_binding = record {
    workspace_id = r.workspace_id;
    agent_id = r.agent_id;
    task_id = r.task_id;
    recommendation_id = r.recommendation_id;
    repo = r.repo;
    base_branch = r.base_branch;
    target_branch = r.target_branch;
    scoped_files = r.scoped_files;
    change_payload_hash = texts.payload_hash r.changes;
    expires_at = t.expires_at;
    nonce = t.nonce;
  }

  -- the token with the stored mark, which the source sets on the caller's object
  unfoldable pub synced : ExecutionStorage → ApprovalToken
  synced s =
      if is_spent (get_approval_token t.token_id r.workspace_id s)
      then record t { consumed = true }
      else t

  -- steps 2 to 5: the first check that fails
  unfoldable pub denial : ExecutionStorage → Option Denial
  denial s =
      if not (t.workspace_id == r.workspace_id)
      then some (tenant_isolation_violation t.workspace_id r.workspace_id)
      else first_denial (token_denial texts (texts.binding_hash current_binding) now (synced s))
          (scope_denial texts r)

  unfoldable pub finish :
      ExecutionStorage → ExecutionResult × G → ExecutionResult × ExecutionStorage × G
  finish s (x, g) = (x, save_execution x r s, g)

  -- steps 2 to 7
  unfoldable pub execute_new : ExecutionStorage → G → ExecutionResult × ExecutionStorage × G
  execute_new s g = elim (denial s) [
    | some d ↦ finish s (denial_result r now d, g)
    | none ↦ finish (mark_token_consumed t.token_id s) (
        run_workflow
          (event r now recommended ∷ event r now (approval_verified t.approver t.token_id) ∷ []) g)
  ]

  -- `execute`
  unfoldable pub execute :
      (List ExecutionTimelineEvent → List ExecutionTimelineEvent)
      → ExecutionStorage
      → G
      → ExecutionResult × ExecutionStorage × G
  execute by_time s g = elim (get_by_idempotency by_time r.workspace_id r.idempotency_key s) [
    | some existing ↦ (existing, s, g)
    | none ↦ execute_new s g
  ]

-- `create_binding`
unfoldable pub create_binding : ExecutionTexts → ExecutionRequest → ℕ → String → ExecutionBinding
create_binding texts r expires_at nonce = record {
  workspace_id = r.workspace_id;
  agent_id = r.agent_id;
  task_id = r.task_id;
  recommendation_id = r.recommendation_id;
  repo = r.repo;
  base_branch = r.base_branch;
  target_branch = r.target_branch;
  scoped_files = r.scoped_files;
  change_payload_hash = texts.payload_hash r.changes;
  expires_at = expires_at;
  nonce = nonce;
}

-- `issue_approval`
unfoldable pub issue_approval :
    ExecutionTexts
    → String
    → ExecutionBinding
    → String
    → ℕ
    → ExecutionStorage
    → ApprovalToken × ExecutionStorage
issue_approval texts token_id binding approver now s =
    let t = create_token texts token_id binding approver now in (t, save_approval_token t s)
