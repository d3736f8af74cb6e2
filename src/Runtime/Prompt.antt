-- ===== src/Runtime/Prompt.antt =====
-- `worker_prompt` (src/mutmuas/runtime.py).
use Prim.Native.String.{◌++◌ as ◌⧺◌}
use mutmuas.Prelude.{
  String, Option, none, some, List, [], ◌∷◌, ◌++◌, map, ◌==◌, if◌then◌else◌, join,
}
use mutmuas.Json.{obj, arr, items}
use mutmuas.Protocol.Codec.{ref_to_dict}
use mutmuas.Runtime.Context.{TaskContext, Host, cwd, address}

abbrev git_note : Option String → String
git_note none = ""
git_note (some branch) =
    if branch == ""
    then ""
    else "\nYou are in an isolated git worktree on branch "
      ⧺ (branch
          ⧺ ". Commit your changes there (git add + git commit); only committed work is delivered, as a patch.\n")

abbrev role_or_id : TaskContext → String
role_or_id ctx = if ctx.agent.role == "" then ctx.agent.id else ctx.agent.role

-- The paragraphs of the prompt that name the task.
abbrev opening : Host → TaskContext → List String
opening h ctx =
    ("You are "
      ⧺ (address ctx ⧺ (" (role: " ⧺ (role_or_id ctx ⧺ ") in the mutmuas multi-agent system,"))))
    ∷ ("project \""
        ⧺ (ctx.node.project
            ⧺ ("\", running on node "
                ⧺ (ctx.node.node ⧺ ". Another agent delegated a task to you."))))
    ∷ ""
    ∷ ("Task id: " ⧺ (ctx.task_id ⧺ ("   (attempt " ⧺ (h.show ctx.attempt ⧺ ")"))))
    ∷ ("From: " ⧺ ctx.request.sender)
    ∷ "REQUEST:"
    ∷ h.dumps_pretty (obj ctx.request.body)
    ∷ ("Attached artifact references: "
        ⧺ h.dumps_unicode (arr (items (map ref_to_dict ctx.request.artifacts))))
    ∷ ""
    ∷ "You have the MCP server \"mutmuas\" with tools: report_progress, publish_artifact, fetch_artifact,"
    ∷ "submit_result, list_agents, find_agent, send_request, wait_for_result, check_task."
    ∷ ""
    ∷ git_note ctx.git_branch
    ∷ []

abbrev rules : Host → TaskContext → List String
rules h ctx =
    "Rules:"
    ∷ ("1. Work only inside your working directory ("
        ⧺ (cwd h ctx ⧺ ") unless the request says otherwise."))
    ∷ "2. Never paste large data into text. Put files/datasets/logs into artifacts with publish_artifact"
    ∷ "   and pass the returned references to submit_result."
    ∷ "3. Call report_progress for meaningful milestones of long work."
    ∷ "4. Finish by calling submit_result exactly once. status must be honest:"
    ∷ "   complete = every acceptance criterion met; partial = some output but not all criteria;"
    ∷ "   failed = nothing usable. Never report partial work as complete. List limitations."
    ∷ "5. If you need something only the requester can provide, say so in follow_up and use status partial or failed."
    ∷ ""
    ∷ []

unfoldable pub worker_prompt : Host → TaskContext → String
unfolding address cwd ref_to_dict
worker_prompt h ctx = join "\n" (opening h ctx ++ rules h ctx)
