-- ===== src/Guardrails/Tests.antt =====
-- The theorems on guardrails at work: a task that spends too much, and one that runs away.
use burnlens.Prelude.{
  ℕ, ◌≡◌, refl, ◌↔◌, String, true, false, none, some, List, [], ◌∷◌, arith, ◌==◌, if◌then◌else◌,
}
use burnlens.Float.Micro.{micro}
use burnlens.Guardrails.Models.{
  allow, pause, stop, deny, no_failure, duplicate, no_metrics, active, paused, stopped,
  GuardrailPolicy, RuntimeTelemetryEvent, TaskState, fail_closed,
}
use burnlens.Guardrails.Detector.{is_forbidden, evaluate}
use burnlens.Guardrails.Detector.Precedence.{exceeds_budget, reaches_limit, evaluate_iff}
use burnlens.Guardrails.Storage.{
  GuardrailStorage, get_policy, get_or_create_task_state, find_task, record_event_ingestion,
}
use burnlens.Guardrails.Engine.{
  handle_event, by_state, supervise, get_or_create_default_policy, refusal, evaluate_runtime_event,
  resume_task,
}
use burnlens.Guardrails.Engine.History.{resume, here, next}
use burnlens.Guardrails.Engine.Duplicates.{evaluate_runtime_event_once}
use burnlens.Guardrails.Engine.Stopped.{Reach-stopped}
use burnlens.Guardrails.Engine.Runaway.{IsHeld, run, run-IsHeld}
use burnlens.Guardrails.Engine.Resume.{resume_task_again}

abbrev clean : String → String
clean s = s

abbrev by_version : List (GuardrailPolicy ℕ) → List (GuardrailPolicy ℕ)
by_version policies = policies

-- two requests at most
abbrev strict : GuardrailPolicy ℕ
strict = record {
  policy_id = "pol-1";
  workspace_id = "acme";
  name = "Strict";
  max_retries = 3;
  hard_budget_usd = 1000000;
  max_consecutive_tool_errors = 3;
  max_task_requests = 2;
  forbidden_actions = "auto_merge" ∷ [];
  fail_safe_mode = fail_closed;
  version = 1;
  is_active = true;
}

abbrev row : TaskState ℕ
row = record {
  workspace_id = "acme";
  agent_id = "coder";
  state = active;
  total_cost_usd = 0;
  retry_count = 0;
  consecutive_tool_errors = 0;
  request_count = 0;
  paused_reason = none;
  resumed_by = none;
  stopped_reason = none;
}

abbrev stopped_row : TaskState ℕ
stopped_row = record row { state = stopped; total_cost_usd = 2000000 }

abbrev paused_row : TaskState ℕ
paused_row = record row { state = paused; request_count = 2 }

abbrev holding : TaskState ℕ → GuardrailStorage ℕ
holding t = record {
  policies = strict ∷ [];
  tasks = λ id. if id == "task-1" then some t else none;
  ingested = λ id. false;
  decisions = [];
}

abbrev call : String → RuntimeTelemetryEvent ℕ
call id = record {
  event_id = id;
  workspace_id = "acme";
  agent_id = "coder";
  task_id = "task-1";
  action_type = "read_file";
  cost_usd = 1000;
  is_retry = false;
  is_tool_error = false;
}

abbrev merge : RuntimeTelemetryEvent ℕ
merge = record (call "e-1") { action_type = "auto_merge" }

allowed_first :
    (evaluate_runtime_event by_version clean false (call "e-1") (holding row)).0.decision ≡ allow
unfolding evaluate_runtime_event handle_event get_or_create_task_state by_state supervise get_policy
    get_or_create_default_policy evaluate is_forbidden record_event_ingestion
allowed_first = refl

evaluate_iff_example :
    let decision = (evaluate clean merge row strict).decision in
    let forbidden = is_forbidden clean "auto_merge" ("auto_merge" ∷ []) in
    (decision ≡ deny ↔ forbidden ≡ true)
    × (decision ≡ stop ↔ (forbidden ≡ false × exceeds_budget clean merge row strict ≡ true))
    × (decision ≡ pause ↔ (
        forbidden ≡ false
        × exceeds_budget clean merge row strict ≡ false
        × reaches_limit clean merge row strict ≡ true))
    × (decision ≡ allow ↔ (
        forbidden ≡ false
        × exceeds_budget clean merge row strict ≡ false
        × reaches_limit clean merge row strict ≡ false))
evaluate_iff_example = evaluate_iff clean merge row strict

-- an event after a failed resumption of the stopped task
abbrev later : GuardrailStorage ℕ
later = (resume_task "task-1" "acme" "ops" (holding stopped_row)).1

Reach-stopped_example :
    (later.tasks "task-1" ≡ some stopped_row)
    × (resume_task "task-1" "acme" "ops" later ≡ (none, later))
    × ((evaluate_runtime_event by_version clean false (call "e-1") later).0.decision ≡ stop)
unfolding resume_task get_or_create_task_state find_task
Reach-stopped_example =
    Reach-stopped by_version clean "task-1" stopped_row refl (call "e-1") "ops" refl
      (next here (resume "task-1" "acme" "ops" (holding stopped_row))) refl refl refl

abbrev after_call : GuardrailStorage ℕ
after_call = (evaluate_runtime_event by_version clean false (call "e-1") (holding row)).1

-- The forbidden action reuses the id of a permitted one.
evaluate_runtime_event_once_example :
    evaluate_runtime_event by_version clean false merge after_call
    ≡ (refusal merge allow no_failure duplicate no_metrics, after_call)
evaluate_runtime_event_once_example =
    evaluate_runtime_event_once by_version clean (call "e-1") merge false (holding row) here refl

run-IsHeld_example :
    (u : TaskState ℕ) × ((run by_version clean (call "e-1" ∷ call "e-2" ∷ []) (holding row)).tasks
        "task-1"
      ≡ some u)
    × IsHeld u
unfolding get_policy is_forbidden
run-IsHeld_example =
    run-IsHeld by_version clean "task-1" "acme" strict (call "e-1" ∷ call "e-2" ∷ []) row
      (holding row) refl refl refl refl ((refl, refl, refl, refl), ((refl, refl, refl, refl), tt))
      ((refl, tt), (tt, tt)) (omega arith) (omega arith)

resume_task_again_example :
    let s' = (resume_task "task-1" "acme" "ops" (holding paused_row)).1 in
    (u : TaskState ℕ) × ((evaluate_runtime_event by_version clean false (call "e-3") s').1.tasks
        "task-1"
      ≡ some u)
    × IsHeld u
unfolding get_policy is_forbidden
resume_task_again_example =
    resume_task_again by_version clean (call "e-3") strict "ops" paused_row (holding paused_row)
      refl refl refl refl refl refl (omega arith)
