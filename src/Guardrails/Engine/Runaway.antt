-- ===== src/Guardrails/Engine/Runaway.antt =====
-- A task that sends requests without end is paused or stopped.
use burnlens.Prelude.{
  ◌+◌, ◌≤◌, ◌<◌, ◌≡◌, ◌⊎◌, refl, sym, ap, ◌∙◌, ◌==◌, String, true, false, some, List, [], ◌∷◌, inl,
  inr, arith, ==_false_symm, false≢true,
}
use burnlens.Prelude.Lists.{length, All, HasDistinct}
use burnlens.Float.{Float}
use burnlens.Guardrails.Models.{
  GuardrailDecisionType, allow, pause, stop, deny, active, paused, stopped, GuardrailPolicy,
  RuntimeTelemetryEvent, TaskState, Reason,
}
use burnlens.Guardrails.Detector.{is_forbidden, evaluate}
use burnlens.Guardrails.Detector.Precedence.{evaluate_iff}
use burnlens.Guardrails.Storage.{
  GuardrailStorage, get_policy, record_event_ingestion, with_state, with_metrics, record_decision,
}
use burnlens.Guardrails.Engine.{evaluate_runtime_event, handle_event, by_state}
use burnlens.Guardrails.Engine.Rows.{found_self}
use burnlens.Guardrails.Engine.History.{handle_event-ingested}
use burnlens.Guardrails.Engine.Active.{
  moved, moved-requests, moved-workspace, row_after, handle_event-active,
}

module _ {W : Type 0} where
  abbrev pub IsHeld : TaskState W → Type 0
  IsHeld t = (t.state ≡ paused) ⊎ (t.state ≡ stopped)

  moved-cases :
      (d : GuardrailDecisionType) (r : Reason W) (t : TaskState W)
      → ¬ (d ≡ deny)
      → IsHeld (moved d r t) ⊎ ((d ≡ allow) × (moved d r t ≡ t))
  unfolding with_state
  moved-cases pause r t h = inl (inl refl)
  moved-cases stop r t h = inl (inr refl)
  moved-cases allow r t h = inr (refl, refl)
  moved-cases deny r t h = absurd (h refl)

module _ {W : Type 0} ⦃f : Float W⦄
    (by_version : List (GuardrailPolicy W) → List (GuardrailPolicy W))
    (clean : String → String) where
  -- the events one after another
  abbrev pub run : List (RuntimeTelemetryEvent W) → GuardrailStorage W → GuardrailStorage W
  run [] s = s
  run (e ∷ es) s = run es (evaluate_runtime_event by_version clean false e s).1

  -- An event of the task that is permitted and was never ingested.
  abbrev pub IsRequest :
      String → String → GuardrailPolicy W → GuardrailStorage W → RuntimeTelemetryEvent W → Type 0
  IsRequest id workspace p s e =
      (e.task_id ≡ id)
      × (e.workspace_id ≡ workspace)
      × (is_forbidden clean e.action_type p.forbidden_actions ≡ false)
      × (s.ingested e.event_id ≡ false)

  after_cases :
      (e : RuntimeTelemetryEvent W) (p : GuardrailPolicy W) (t : TaskState W)
      → is_forbidden clean e.action_type p.forbidden_actions ≡ false
      → t.state ≡ active
      → IsHeld (row_after by_version clean e p t)
        ⊎ (((row_after by_version clean e p t).state ≡ active)
            × (t.request_count + 1 < p.max_task_requests))
  unfolding with_metrics
  after_cases e p t permitted going =
      let (denied, _, _, allowed) = evaluate_iff clean e t p in
      let d = evaluate clean e t p in
      elim (moved-cases d.decision d.reason t (λ no. false≢true (sym permitted ∙ denied.0 no))) [
        | inl held ↦ inl held
        | inr (ok, same) ↦
            let (_, _, below) = allowed.0 ok in inr (ap (λ u. u.state) same ∙ going, ground arith)
      ]

  after_requests :
      (e : RuntimeTelemetryEvent W) (p : GuardrailPolicy W) (t : TaskState W)
      → ((row_after by_version clean e p t).request_count ≡ t.request_count + 1)
        × ((row_after by_version clean e p t).workspace_id ≡ t.workspace_id)
  unfolding with_metrics
  after_requests e p t =
      let d = evaluate clean e t p in
      (
        ap (λ n. n + 1) (moved-requests d.decision d.reason t),
        moved-workspace d.decision d.reason t,
      )

  -- the rest of the requests, after one of them
  requests_after :
      (id workspace : String) (p : GuardrailPolicy W) (e : RuntimeTelemetryEvent W)
      (s : GuardrailStorage W) (es : List (RuntimeTelemetryEvent W))
      → All (IsRequest id workspace p s) es
      → All (λ e'. (e.event_id == e'.event_id) ≡ false) es
      → All (IsRequest id workspace p (handle_event by_version clean e s).1) es
  unfolding record_event_ingestion
  requests_after id workspace p e s [] h distinct = tt
  requests_after id workspace p e s (e' ∷ es) h distinct =
      let (own, at, permitted, new) = h.0 in
      (
        (
          own,
          at,
          permitted,
          handle_event-ingested by_version clean e e'.event_id s
              ∙ rw (==_false_symm e.event_id e'.event_id distinct.0) new,
        ),
        requests_after id workspace p e s es h.1 distinct.1,
      )

  handle_event-held :
      (e : RuntimeTelemetryEvent W) (t : TaskState W) (s : GuardrailStorage W)
      → s.tasks e.task_id ≡ some t
      → (t.workspace_id == e.workspace_id) ≡ true
      → IsHeld t
      → (handle_event by_version clean e s).1.tasks ≡ s.tasks
  unfolding handle_event by_state record_event_ingestion record_decision
  handle_event-held e t s row own held =
      rw
        (found_self e.task_id e.workspace_id e.agent_id t (record_event_ingestion e.event_id s) row
          own)
        (elim held [ inl at ↦ rw at refl | inr at ↦ rw at refl ])

  evaluate-new :
      (e : RuntimeTelemetryEvent W) (s : GuardrailStorage W)
      → s.ingested e.event_id ≡ false
      → evaluate_runtime_event by_version clean false e s ≡ handle_event by_version clean e s
  unfolding evaluate_runtime_event
  evaluate-new e s new = rw new refl

  run-held :
      (id workspace : String) (p : GuardrailPolicy W) (es : List (RuntimeTelemetryEvent W))
      (t : TaskState W) (s : GuardrailStorage W)
      → s.tasks id ≡ some t
      → (t.workspace_id == workspace) ≡ true
      → IsHeld t
      → All (IsRequest id workspace p s) es
      → HasDistinct (λ e. e.event_id) es
      → (run es s).tasks id ≡ some t
  run-held id workspace p [] t s row own held h distinct = row
  run-held id workspace p (e ∷ es) t s row own held h distinct =
      let (mine, at, permitted, new) = h.0 in
      rw (run, evaluate-new e s new)
        (run-held id workspace p es t (handle_event by_version clean e s).1
          (ap (λ tasks. tasks id) (handle_event-held e t s (ap s.tasks mine ∙ row) (rw at own) held)
            ∙ row)
          own held (requests_after id workspace p e s es h.1 distinct.0) distinct.1)

  -- Permitted events of an active task with distinct new ids pause or stop it, if they are as many
  -- as its policy allows requests beyond those that it has made, and at least one.
  pub run-IsHeld :
      (id workspace : String) (p : GuardrailPolicy W) (es : List (RuntimeTelemetryEvent W))
      (t : TaskState W) (s : GuardrailStorage W)
      → s.tasks id ≡ some t
      → (t.workspace_id == workspace) ≡ true
      → t.state ≡ active
      → get_policy by_version workspace s ≡ some p
      → All (IsRequest id workspace p s) es
      → HasDistinct (λ e. e.event_id) es
      → p.max_task_requests ≤ t.request_count + length es
      → 0 < length es
      → (u : TaskState W) × ((run es s).tasks id ≡ some u) × IsHeld u
  unfolding get_policy
  run-IsHeld id workspace p [] t s row own going policy h distinct many some_event =
      elim some_event [ ]
  run-IsHeld id workspace p (e ∷ es) t s row own going policy h distinct many some_event =
      let (mine, at, permitted, new) = h.0 in
      let s' = (handle_event by_version clean e s).1 in
      let u = row_after by_version clean e p t in
      let (stored, kept) =
        handle_event-active by_version clean e p t s (ap s.tasks mine ∙ row) (rw at own) going
          (rw at policy) in
      let row' : s'.tasks id ≡ some u = ap s'.tasks (sym mine) ∙ stored in
      let (counted, same) = after_requests e p t in
      let own' : (u.workspace_id == workspace) ≡ true = rw same own in
      let rest = requests_after id workspace p e s es h.1 distinct.0 in
      rw (run, evaluate-new e s new)
        (elim (after_cases e p t permitted going) [
          | inl held ↦ (u, run-held id workspace p es u s' row' own' held rest distinct.1, held)
          | inr (on, below) ↦
              run-IsHeld id workspace p es u s' row' own' on (rw kept policy) rest distinct.1
                (omega (arith, counted)) (omega arith)
        ])
