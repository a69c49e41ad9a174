-- ===== src/Execution/Service/Approval.antt =====
-- When a request is executed, and how often a token serves.
use burnlens.Prelude.{
  ℕ, ◌≤◌, ◌≡◌, ◌≢◌, refl, ◌↔◌, inl, inr, String, Bool, true, false, not, Option, none, some, List,
  [], ◌∷◌, ◌==◌, arith, sym, ◌∙◌, Bool-cases, Option-cases, if◌then◌else◌,
}
use burnlens.Prelude.Dict.{Dict}
use burnlens.Prelude.Lists.{All}
use burnlens.Execution.Models.{
  completed, failed, denied, ApprovalToken, ExecutionRequest, Denial, tenant_isolation_violation,
  ExecutionTimelineEvent, ExecutionResult, ExecutionTexts, is_signed, token_denial,
  is_protected_branch, is_scoped, first_unscoped, scope_denial,
}
use burnlens.Execution.Storage.{
  ExecutionStorage, mark_token_consumed, get_approval_token, get_by_idempotency, save_execution,
}
use burnlens.Execution.Service.{
  Call, returned, raised, GitProviderClient, unfinished, denial_result, attempt, completion,
  run_workflow, current_binding, is_spent, first_denial, synced, denial, finish, execute_new,
  execute,
}

module _ (texts : ExecutionTexts) where
  first_unscoped_iff :
      (patterns : List String) (changes : Dict String)
      → (first_unscoped texts patterns changes ≡ none)
        ↔ All (λ c. is_scoped texts patterns c.0 ≡ true) changes
  unfolding first_unscoped
  first_unscoped_iff patterns [] = (λ h. tt, λ h. refl)
  first_unscoped_iff patterns ((file, _) ∷ changes) =
      elim (Bool-cases (is_scoped texts patterns file)) [
        | inl e ↦ rw e (
          λ h. (refl, (first_unscoped_iff patterns changes).0 h),
          λ h. (first_unscoped_iff patterns changes).1 h.1,
        )
        | inr e ↦ rw e ((λ h. ground arith), λ h. ground arith)
      ]

  token_denial_iff :
      (hash : String) (now : ℕ) (t : ApprovalToken)
      → (token_denial texts hash now t ≡ none) ↔ (
          (is_signed texts t ≡ true)
          × ((t.binding_hash == hash) ≡ true)
          × (now ≤ t.expires_at)
          × (t.consumed ≡ false))
  unfolding token_denial
  token_denial_iff hash now t = (λ h. ground arith, λ h. ground arith)

-- A workflow does not end as denied, and its pull request is unmerged.
pub IsEnded : {G : Type 0} → ExecutionResult × G → Type 0
IsEnded (x, g) = (x.status ≢ denied) × (x.is_unmerged ≡ true)

attempt-IsEnded :
    (r : ExecutionRequest) (now : ℕ) {G A : Type 0} (c : Call A × G)
    (timeline : List ExecutionTimelineEvent) (next : A → G → ExecutionResult × G)
    → ((a : A) (g : G) → IsEnded (next a g))
    → IsEnded (attempt r now c timeline next)
unfolding attempt unfinished IsEnded
attempt-IsEnded r now (raised e, g) timeline next h = (λ e. absurd (distinct e), refl)
  where
    distinct : failed ≡ denied → ⊥
    distinct e = ground arith
attempt-IsEnded r now (returned a, g) timeline next h = h a g

module _ {G : Type 0} (texts : ExecutionTexts) (client : GitProviderClient G) (r : ExecutionRequest)
    (t : ApprovalToken) (now : ℕ) where
  -- The conditions of an execution: the token is of the request's workspace, is signed, is bound to
  -- this request, has not expired and is not marked as used, neither in the caller's copy nor in
  -- the store; the target branch is not protected, and each changed file is in scope.
  pub record MayExecute (s : ExecutionStorage) : Type 0 where
    pub tenant : (t.workspace_id == r.workspace_id) ≡ true
    pub signed : is_signed texts t ≡ true
    pub bound : (t.binding_hash == texts.binding_hash (current_binding texts client r t now)) ≡ true
    pub live : now ≤ t.expires_at
    pub unused : (synced texts client r t now s).consumed ≡ false
    pub unprotected : is_protected_branch texts r.target_branch ≡ false
    pub scoped : All (λ c. is_scoped texts r.scoped_files c.0 ≡ true) r.changes

  -- The mark leaves everything but the use of the token as it was.
  synced_fields :
      (s : ExecutionStorage)
      → (is_signed texts (synced texts client r t now s) ≡ is_signed texts t)
        × ((synced texts client r t now s).binding_hash ≡ t.binding_hash)
        × ((synced texts client r t now s).expires_at ≡ t.expires_at)
  unfolding synced is_signed
  synced_fields s = elim (Bool-cases (is_spent (get_approval_token t.token_id r.workspace_id s))) [
    | inl e ↦ rw e (refl, refl, refl)
    | inr e ↦ rw e (refl, refl, refl)
  ]

  scope_denial_iff : (scope_denial texts r ≡ none) ↔ (
      (is_protected_branch texts r.target_branch ≡ false)
      × All (λ c. is_scoped texts r.scoped_files c.0 ≡ true) r.changes)
  unfolding scope_denial
  scope_denial_iff = elim (Bool-cases (is_protected_branch texts r.target_branch)) [
    | inl e ↦ rw e ((λ h. ground arith), λ h. ground arith)
    | inr e ↦ rw e (
      λ h. (refl, (first_unscoped_iff texts r.scoped_files r.changes).0 h),
      λ h. (first_unscoped_iff texts r.scoped_files r.changes).1 h.1,
    )
  ]

  denial_iff : (s : ExecutionStorage) → (denial texts client r t now s ≡ none) ↔ MayExecute s
  unfolding denial first_denial current_binding
  denial_iff s =
      let x = synced texts client r t now s in
      let hash = texts.binding_hash (current_binding texts client r t now) in
      let (signature, binding, expiry) = synced_fields s in
      (
        λ h.
            let (tenant, valid, scope) = split _ _ _ h in
            let (signed, bound, live, unused) = (token_denial_iff texts hash now x).0 valid in
            let (unprotected, scoped) = scope_denial_iff.0 scope in
            record {
              tenant = tenant;
              signed = sym signature ∙ signed;
              bound = rw (← binding) bound;
              live = rw (← expiry) live;
              unused = unused;
              unprotected = unprotected;
              scoped = scoped;
            },
        λ m. rw m.tenant (
            rw
              ((token_denial_iff texts hash now x).1
                (signature ∙ m.signed, rw binding m.bound, rw expiry m.live, m.unused))
              (scope_denial_iff.1 (m.unprotected, m.scoped))),
      )
    where
      split :
          (same : Bool) (d e : Option Denial)
          → (if not same
              then some (tenant_isolation_violation t.workspace_id r.workspace_id)
              else first_denial d e)
            ≡ none
          → (same ≡ true) × (d ≡ none) × (e ≡ none)
      split true none e h = (refl, refl, h)
      split true (some d) e h = ground arith
      split false d e h = ground arith

  run_workflow-IsEnded :
      (timeline : List ExecutionTimelineEvent) (g : G)
      → IsEnded (run_workflow texts client r t now timeline g)
  unfolding run_workflow completion IsEnded
  run_workflow-IsEnded timeline g = attempt-IsEnded r now _ _ _ λ _ g.
      attempt-IsEnded r now _ _ _ λ sha g.
        attempt-IsEnded r now _ _ _
          λ pr g. attempt-IsEnded r now _ _ _ λ ci g. (λ e. absurd (distinct e), refl)
    where
      distinct : completed ≡ denied → ⊥
      distinct e = ground arith

  module _ (by_time : List ExecutionTimelineEvent → List ExecutionTimelineEvent)
      (s : ExecutionStorage) (g : G) where
    -- A request with a new idempotency key is not denied exactly when it may be executed. A denial
    -- calls nothing at the git provider and uses no token; an execution marks the token as used.
    -- Whatever the provider answers, the result says that the pull request is unmerged.
    pub execute_denied_iff :
        get_by_idempotency by_time r.workspace_id r.idempotency_key s ≡ none
        → let (x, s', g') = execute texts client r t now by_time s g in
          ((x.status ≢ denied) ↔ MayExecute s)
          × (x.status ≡ denied → (g' ≡ g) × (s'.tokens ≡ s.tokens))
          × (MayExecute s → s'.tokens ≡ (mark_token_consumed t.token_id s).tokens)
          × (x.is_unmerged ≡ true)
    unfolding execute execute_new finish save_execution denial_result unfinished IsEnded
    execute_denied_iff new =
        rw (new, execute)
          (elim (Option-cases (denial texts client r t now s)) [
            | inl e ↦
                rw (e, execute_new)
                  (let ended = run_workflow-IsEnded _ g in
                    (
                      (λ _. (denial_iff s).0 e, λ _. ended.0),
                      λ d. absurd (ended.0 d),
                      λ _. refl,
                      ended.1,
                    ))
            | inr (d, e) ↦
                rw (e, execute_new)
                  (
                    (
                      λ h. absurd (h refl),
                      λ m. absurd (none_some d (sym ((denial_iff s).1 m) ∙ e)),
                    ),
                    λ _. (refl, refl),
                    λ m. absurd (none_some d (sym ((denial_iff s).1 m) ∙ e)),
                    refl,
                  )
          ])
      where
        none_some : (d : Denial) → ◌≡◌ {A = Option Denial} none (some d) → ⊥
        none_some d h = ground arith

    pub execute_refuses :
        get_by_idempotency by_time r.workspace_id r.idempotency_key s ≡ none
        → ¬ (MayExecute s)
        → (execute texts client r t now by_time s g).0.status ≡ denied
    unfolding execute execute_new finish denial_result unfinished
    execute_refuses new h =
        rw (new, execute)
          (elim (Option-cases (denial texts client r t now s)) [
            | inl e ↦ absurd (h ((denial_iff s).0 e))
            | inr (d, e) ↦ rw (e, execute_new) refl
          ])
