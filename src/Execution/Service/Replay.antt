-- ===== src/Execution/Service/Replay.antt =====
-- A request that comes again gets the stored result.
use mathlib.Core.Option
use burnlens.Prelude.{
  ℕ, ◌≡◌, refl, Bool, true, false, not, ◌||◌, none, some, List, [], ◌∷◌, ◌++◌, eq_refl, Bool-cases,
  Option-cases, inl, inr, ap,
}
use burnlens.Prelude.Lists.{filter, find_first}
use burnlens.Execution.Models.{
  ApprovalToken, ExecutionRequest, ExecutionTimelineEvent, ExecutionResult, ExecutionTexts,
}
use burnlens.Execution.Storage.{
  ExecutionStorage, has_key, replay, get_timeline, get_by_idempotency, save_execution,
}
use burnlens.Execution.Service.{
  Call, returned, raised, GitProviderClient, unfinished, denial_result, attempt, completion,
  run_workflow, denial, finish, execute_new, execute,
}

-- The last row is the first to be found where the others that would be have been removed.
find_first-last :
    {A : Type 0} (p q : A → Bool) (xs : List A) (y : A)
    → p y ≡ true
    → ((x : A) → p x ≡ true → q x ≡ false)
    → find_first p (filter q xs ++ y ∷ []) ≡ some y
find_first-last p q [] y found removed = rw found refl
find_first-last p q (x ∷ xs) y found removed = elim (Bool-cases (q x)) [
  | inr e ↦ rw e (find_first-last p q xs y found removed)
  | inl e ↦ elim (Bool-cases (p x)) [
    | inl match ↦ cc (removed x match)
    | inr other ↦ rw (e, other) (find_first-last p q xs y found removed)
  ]
]

save_execution-get_by_idempotency :
    (by_time : List ExecutionTimelineEvent → List ExecutionTimelineEvent) (x : ExecutionResult)
    (r : ExecutionRequest) (s : ExecutionStorage)
    → x.workspace_id ≡ r.workspace_id
    → let s' = save_execution x r s in
      get_by_idempotency by_time r.workspace_id r.idempotency_key s'
      ≡ some
          (record x { idempotent_replay = true; timeline = get_timeline by_time x.execution_id s' })
unfolding save_execution get_by_idempotency has_key replay
save_execution-get_by_idempotency by_time x r s same =
    ap (Option.map (replay by_time (save_execution x r s))) (
      find_first-last _ _ s.records _
        (rw (same, eq_refl r.workspace_id, eq_refl r.idempotency_key) refl)
        (λ y match. rw (same, match) (dropped _)))
  where
    dropped : (b : Bool) → not (b || true) ≡ false
    dropped true = refl
    dropped false = refl

module _ {G : Type 0} (texts : ExecutionTexts) (client : GitProviderClient G) where
  attempt-workspace :
      (r : ExecutionRequest) (now : ℕ) {A : Type 0} (c : Call A × G)
      (timeline : List ExecutionTimelineEvent) (next : A → G → ExecutionResult × G)
      → ((a : A) (g : G) → (next a g).0.workspace_id ≡ r.workspace_id)
      → (attempt r now c timeline next).0.workspace_id ≡ r.workspace_id
  unfolding attempt unfinished
  attempt-workspace r now (raised e, g) timeline next h = refl
  attempt-workspace r now (returned a, g) timeline next h = h a g

  run_workflow-workspace :
      (r : ExecutionRequest) (t : ApprovalToken) (now : ℕ) (timeline : List ExecutionTimelineEvent)
      (g : G)
      → (run_workflow texts client r t now timeline g).0.workspace_id ≡ r.workspace_id
  unfolding run_workflow completion
  run_workflow-workspace r t now timeline g = attempt-workspace r now _ _ _ λ _ g.
      attempt-workspace r now _ _ _
        λ sha g. attempt-workspace r now _ _ _ λ pr g. attempt-workspace r now _ _ _ λ ci g. refl

  module _ (by_time : List ExecutionTimelineEvent → List ExecutionTimelineEvent)
      (r : ExecutionRequest) (t : ApprovalToken) (now : ℕ) where
    execute-found :
        (s : ExecutionStorage) (g : G) {existing : ExecutionResult}
        → get_by_idempotency by_time r.workspace_id r.idempotency_key s ≡ some existing
        → execute texts client r t now by_time s g ≡ (existing, s, g)
    unfolding execute
    execute-found s g h = rw (h, execute) refl

    execute-stored :
        (s : ExecutionStorage) (g : G)
        → get_by_idempotency by_time r.workspace_id r.idempotency_key s ≡ none
        → let (x, s', _) = execute texts client r t now by_time s g in
          get_by_idempotency by_time r.workspace_id r.idempotency_key s'
          ≡ some (record x {
            idempotent_replay = true;
            timeline = get_timeline by_time x.execution_id s';
          })
    unfolding execute execute_new finish denial_result unfinished
    execute-stored s g new = elim (Option-cases (denial texts client r t now s)) [
      | inl e ↦
          rw (new, execute, e, execute_new)
            (save_execution-get_by_idempotency by_time _ r _ (run_workflow-workspace r t now _ g))
      | inr (d, e) ↦
          rw (new, execute, e, execute_new) (save_execution-get_by_idempotency by_time _ r _ refl)
    ]

  -- After a request with a new idempotency key, whether it was denied, failed or was executed, a
  -- request of its workspace with the same key gets the first one's result, marked as a replay and
  -- with the timeline that is stored, whatever its content, its token and its time: nothing is
  -- stored and the git provider is not called.
  pub execute_replays :
      (by_time : List ExecutionTimelineEvent → List ExecutionTimelineEvent)
      (r later : ExecutionRequest) (t copy : ApprovalToken) (now instant : ℕ) (s : ExecutionStorage)
      (g g' : G)
      → get_by_idempotency by_time r.workspace_id r.idempotency_key s ≡ none
      → later.workspace_id ≡ r.workspace_id
      → later.idempotency_key ≡ r.idempotency_key
      → let (x, s', _) = execute texts client r t now by_time s g in
        execute texts client later copy instant by_time s' g' ≡ (
          record x { idempotent_replay = true; timeline = get_timeline by_time x.execution_id s' },
          s',
          g',
        )
  execute_replays by_time r later t copy now instant s g g' new workspace key =
      let found : let (x, s', _) = execute texts client r t now by_time s g in
          get_by_idempotency by_time later.workspace_id later.idempotency_key s'
          ≡ some (record x {
            idempotent_replay = true;
            timeline = get_timeline by_time x.execution_id s';
          }) =
        rw (workspace, key) (execute-stored by_time r t now s g new) in
      execute-found by_time later copy instant _ g' found
