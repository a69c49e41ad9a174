-- ===== src/Execution/Models.antt =====
-- burnlens/execution/models.py. Instants are numbers. The two hashes and the signature (SHA-256 and
-- HMAC of the joined fields) are parameters, as are `fnmatch` and `strip().lower()`.
use burnlens.Prelude.{
  ℕ, String, Bool, false, not, Option, none, some, List, [], ◌∷◌, ltb, ◌==◌, if◌then◌else◌,
}
use burnlens.Prelude.Dict.{Dict}
use burnlens.Prelude.Lists.{any, contains}

abbrev pub protected_branches : List String
protected_branches = "main" ∷ "master" ∷ "prod" ∷ "production" ∷ "release" ∷ []

pub data ExecutionStatus : Type 0 where
  pending_approval approved executing completed failed denied rejected : ExecutionStatus

pub record ExecutionBinding : Type 0 where
  pub workspace_id : String
  pub agent_id : String
  pub task_id : String
  pub recommendation_id : String
  pub repo : String
  pub base_branch : String
  pub target_branch : String
  pub scoped_files : List String
  pub change_payload_hash : String
  pub expires_at : ℕ
  pub nonce : String

pub record ApprovalToken : Type 0 where
  pub token_id : String
  pub binding_hash : String
  pub workspace_id : String
  pub approver : String
  pub approved_at : ℕ
  pub expires_at : ℕ
  pub signature : String
  pub consumed : Bool
  pub nonce : String  -- of the metadata

pub record ExecutionRequest : Type 0 where
  pub execution_id : String
  pub workspace_id : String
  pub agent_id : String
  pub task_id : String
  pub recommendation_id : String
  pub repo : String
  pub target_branch : String
  pub scoped_files : List String
  pub changes : Dict String
  pub idempotency_key : String
  pub base_branch : String

-- why a request is denied, with what the message quotes
pub data Denial : Type 0 where
  tenant_isolation_violation : String → String → Denial
  invalid_signature modified_after_approval : Denial
  approval_expired : ℕ → Denial
  already_consumed : Denial
  protected_branch_violation : String → Denial
  scope_violation : String → List String → Denial

-- an exception of the adapter or the client: its type and its text
pub record Failure : Type 0 where
  pub error_type : String
  pub message : String

-- the error code and the error message of a result
pub data ExecutionError : Type 0 where
  for_denial : Denial → ExecutionError
  for_failure : Failure → ExecutionError

-- the stages of a timeline, with what their message or details quote
pub data Stage : Type 0 where
  recommended : Stage
  denied_for : Denial → Stage
  approval_verified : String → String → Stage
  execution_started branch_created files_committed : Stage
  pr_opened : Option ℕ → Stage
  ci_recorded : String → Stage
  completed_safely : Option ℕ → Stage
  failed_with : Failure → Stage

pub record ExecutionTimelineEvent : Type 0 where
  pub execution_id : String
  pub stage : Stage
  pub timestamp : ℕ

pub record ExecutionResult : Type 0 where
  pub execution_id : String
  pub status : ExecutionStatus
  pub workspace_id : String
  pub repo : String
  pub branch_name : Option String
  pub commit_sha : Option String
  pub pr_number : Option ℕ
  pub pr_url : Option String
  pub ci_status : Option String
  pub is_unmerged : Bool
  pub idempotent_replay : Bool
  pub error : Option ExecutionError
  pub timeline : List ExecutionTimelineEvent
  pub executed_at : ℕ

-- the functions on texts that the models call
pub record ExecutionTexts : Type 0 where
  pub clean : String → String
  pub fnmatch : String → String → Bool
  pub payload_hash : Dict String → String
  pub binding_hash : ExecutionBinding → String
  pub sign : String → String → String → String → ℕ → String

module _ (texts : ExecutionTexts) where
  -- `ApprovalToken.create`
  unfoldable pub create_token : String → ExecutionBinding → String → ℕ → ApprovalToken
  create_token token_id binding approver now =
      let hash = texts.binding_hash binding in
      record {
        token_id = token_id;
        binding_hash = hash;
        workspace_id = binding.workspace_id;
        approver = approver;
        approved_at = now;
        expires_at = binding.expires_at;
        signature = texts.sign token_id hash binding.workspace_id approver binding.expires_at;
        consumed = false;
        nonce = binding.nonce;
      }

  unfoldable pub is_signed : ApprovalToken → Bool
  is_signed t =
      t.signature == texts.sign t.token_id t.binding_hash t.workspace_id t.approver t.expires_at

  -- `ApprovalToken.is_valid`; `none` is `True, "OK"`
  unfoldable pub token_denial : String → ℕ → ApprovalToken → Option Denial
  token_denial current_binding_hash now t =
      if not (is_signed t)
      then some invalid_signature
      else if not (t.binding_hash == current_binding_hash)
      then some modified_after_approval
      else if ltb t.expires_at now
      then some (approval_expired t.expires_at)
      else if t.consumed
      then some already_consumed
      else none

  unfoldable pub is_protected_branch : String → Bool
  is_protected_branch branch = contains protected_branches (texts.clean branch)

  -- `any(fnmatch.fnmatch(changed_file, pattern) for pattern in scoped_files)`
  unfoldable pub is_scoped : List String → String → Bool
  is_scoped patterns file = any (λ p. texts.fnmatch file p) patterns

  unfoldable pub first_unscoped : List String → Dict String → Option Denial
  first_unscoped patterns [] = none
  first_unscoped patterns ((file, _) ∷ changes) =
      let rest = first_unscoped patterns changes in
      if is_scoped patterns file then rest else some (scope_violation file patterns)

  -- `ExecutionRequest.validate_scope`; `none` is `True, "OK"`
  unfoldable pub scope_denial : ExecutionRequest → Option Denial
  scope_denial r =
      if is_protected_branch r.target_branch
      then some (protected_branch_violation r.target_branch)
      else first_unscoped r.scoped_files r.changes
