-- ===== src/Execution/Service/SingleUse.antt =====
-- A stored token serves one execution.
use burnlens.Prelude.{
  ℕ, ◌≡◌, refl, String, true, none, some, List, ◌==◌, eq_refl, false≢true, sym, ◌∙◌,
}
use burnlens.Execution.Models.{
  denied, ApprovalToken, ExecutionRequest, ExecutionTimelineEvent, ExecutionTexts,
}
use burnlens.Execution.Storage.{
  ExecutionStorage, mark_token_consumed, get_approval_token, get_by_idempotency,
}
use burnlens.Execution.Service.{GitProviderClient, is_spent, synced, execute}
use burnlens.Execution.Service.Approval.{MayExecute, execute_denied_iff, execute_refuses}

spent_after_mark :
    (id workspace : String) (stored : ApprovalToken) (s : ExecutionStorage)
    → s.tokens id ≡ some stored
    → (stored.workspace_id == workspace) ≡ true
    → is_spent (get_approval_token id workspace (mark_token_consumed id s)) ≡ true
unfolding get_approval_token mark_token_consumed is_spent
spent_after_mark id workspace stored s found same = rw (eq_refl id) (rw found (rw same refl))

module _ {G : Type 0} (texts : ExecutionTexts) (client : GitProviderClient G)
    (by_time : List ExecutionTimelineEvent → List ExecutionTimelineEvent) where
  synced_spent :
      (r : ExecutionRequest) (t : ApprovalToken) (now : ℕ) (s : ExecutionStorage)
      → is_spent (get_approval_token t.token_id r.workspace_id s) ≡ true
      → (synced texts client r t now s).consumed ≡ true
  unfolding synced
  synced_spent r t now s h = rw h refl

  same_tokens :
      (id workspace : String) (s s' : ExecutionStorage)
      → s.tokens ≡ s'.tokens
      → get_approval_token id workspace s ≡ get_approval_token id workspace s'
  unfolding get_approval_token
  same_tokens id workspace s s' h = rw h refl

  -- After a token that is stored has served an execution, every request of the token's workspace
  -- with a copy of the token and a new idempotency key is denied, at whatever time it comes.
  pub execute_once :
      (r later : ExecutionRequest) (t copy stored : ApprovalToken) (now instant : ℕ)
      (s : ExecutionStorage) (g g' : G)
      → get_by_idempotency by_time r.workspace_id r.idempotency_key s ≡ none
      → MayExecute texts client r t now s
      → s.tokens t.token_id ≡ some stored
      → (stored.workspace_id == later.workspace_id) ≡ true
      → copy.token_id ≡ t.token_id
      → let s' = (execute texts client r t now by_time s g).1 in
        get_by_idempotency by_time later.workspace_id later.idempotency_key s' ≡ none
        → (execute texts client later copy instant by_time s' g').0.status ≡ denied
  execute_once r later t copy stored now instant s g g' new may found same id fresh =
      let s' = (execute texts client r t now by_time s g).1 in
      let (_, _, used, _) = execute_denied_iff texts client r t now by_time s g new in
      let spent : is_spent (get_approval_token copy.token_id later.workspace_id s') ≡ true =
        rw
          (
            id,
            same_tokens t.token_id later.workspace_id s' (mark_token_consumed t.token_id s)
                (used may),
          )
          (spent_after_mark t.token_id later.workspace_id stored s found same) in
      execute_refuses texts client later copy instant by_time s' g' fresh
        (λ m. false≢true (sym m.unused ∙ synced_spent later copy instant s' spent))
