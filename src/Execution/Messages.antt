-- ===== src/Execution/Messages.antt =====
-- The texts that `AssistedExecutionService.execute` of burnlens/execution/service.py sends to the git
-- provider.
use Prim.Native.String.{◌++◌}
use burnlens.Prelude.{String, List, [], ◌∷◌}
use burnlens.Execution.Models.{ExecutionRequest}

-- `", ".join(...)`
join_after : String → List String → String
join_after s [] = s
join_after s (t ∷ ts) = s ++ ", " ++ join_after t ts

unfoldable pub join : List String → String
unfolding join_after
join [] = ""
join (s ∷ ss) = join_after s ss

unfoldable pub commit_message : ExecutionRequest → String → String
commit_message r approver =
    "burnlens(" ++ r.recommendation_id ++ "): apply optimization changes\n\n" ++ "Approved-by: "
    ++ approver ++ "\n" ++ "Task-ID: " ++ r.task_id ++ "\n" ++ "Agent-ID: " ++ r.agent_id

unfoldable pub pr_title : ExecutionRequest → String
pr_title r = "[BurnLens Optimization] " ++ r.recommendation_id ++ " - Scoped Changes"

unfoldable pub pr_body : ExecutionRequest → String → String
unfolding join
pr_body r approver =
    "## BurnLens Assisted Execution\n\n"
    ++ "- **Recommendation**: `"
    ++ r.recommendation_id
    ++ "`\n"
    ++ "- **Agent**: `"
    ++ r.agent_id
    ++ "`\n"
    ++ "- **Task**: `"
    ++ r.task_id
    ++ "`\n"
    ++ "- **Approved By**: `"
    ++ approver
    ++ "`\n"
    ++ "- **Scoped Files**: "
    ++ join r.scoped_files
    ++ "\n\n"
    ++ "> **Notice**: Auto-merge is disabled under BL-AE-006. "
    ++ "Human review and approval in GitHub is mandatory prior to merging."
