-- ===== src/Runtime/Privilege.antt =====
-- Least privilege: what the command lines let a process do, by the request's kind and the agent's
-- permissions (src/mutmuas/runtime.py: TaskContext.allows and its uses).
use Prim.Native.String.{◌++◌ as ◌⧺◌}
use mutmuas.Prelude.{
  String, ◌≡◌, refl, ◌⊎◌, inl, inr, Bool, true, false, not, ◌&&◌, ◌||◌, List, [], ◌∷◌, ◌++◌, arith,
  ◌==◌, join,
}
use mutmuas.Result.{ok}
use mutmuas.Json.{str, get_or}
use mutmuas.Config.{has}
use mutmuas.Protocol.Types.{Permission}
use mutmuas.Runtime.Context.{TaskContext, Host, needed, allows}
use mutmuas.Runtime.Commands.{
  Command, when, tools_for, allowed_tools, claude_line, claude_command, writable, codex_line,
  codex_command,
}

-- The kinds whose tasks may write.
abbrev pub is_work : String → Bool
is_work k = k == "code" || k == "experiment"

abbrev pub HasKind : TaskContext → String → Type 0
HasKind ctx k = get_or ctx.request.body "kind" (str "query") ≡ str k

allows_write :
    (ctx : TaskContext) (k : String)
    → HasKind ctx k
    → allows ctx Permission.write_worktree
      ≡ ok (is_work k && has ctx.agent Permission.write_worktree)
unfolding allows needed
allows_write ctx k h = rw (allows, h) (ground arith)

allows_run :
    (ctx : TaskContext) (k : String)
    → HasKind ctx k
    → allows ctx Permission.run_experiment
      ≡ ok (is_work k && has ctx.agent Permission.run_experiment)
unfolding allows needed
allows_run ctx k h = rw (allows, h) (ground arith)

commands_for :
    (h : Host) (ctx : TaskContext) (k : String)
    → HasKind ctx k
    → let write = is_work k && has ctx.agent Permission.write_worktree in
      let run = is_work k && has ctx.agent Permission.run_experiment in
      (claude_command h ctx ≡ ok (claude_line h ctx (tools_for write run)))
      × (codex_command h ctx ≡ ok (codex_line h ctx (write || run)))
unfolding claude_command allowed_tools codex_command writable
commands_for h ctx k e = rw (allows_write ctx k e, allows_run ctx k e) (refl, ground arith)

-- The tools that Claude Code is given: to write, and to run.
abbrev pub granted : Bool → Bool → String
granted false false = "mcp__mutmuas,Read,Glob,Grep"
granted true false = "mcp__mutmuas,Read,Glob,Grep,Edit,Write,Bash(git:*)"
granted false true = "mcp__mutmuas,Read,Glob,Grep,Bash"
granted true true = "mcp__mutmuas,Read,Glob,Grep,Edit,Write,Bash(git:*),Bash"

-- The sandbox that Codex runs in.
abbrev pub sandbox : Bool → String
sandbox false = "read-only"
sandbox true = "workspace-write"

join-tools_for : (write run : Bool) → join "," (tools_for write run) ≡ granted write run
unfolding join
join-tools_for false false = refl
join-tools_for true false = refl
join-tools_for false true = refl
join-tools_for true true = refl

-- Options that stand only if they are set.
abbrev pub IsOptional : List String → List String → Type 0
IsOptional words chosen = (chosen ≡ []) ⊎ (chosen ≡ words)

-- Claude Code is called with these tools; behind them stand the model and the agent's own arguments.
abbrev pub HasTools : TaskContext → String → Command → Type 0
HasTools ctx tools c =
    (path : String) × (model : List String) × (c.argv
      ≡ ("claude" ∷ "-p" ∷ "--output-format" ∷ "json" ∷ "--mcp-config" ∷ path
          ∷ "--strict-mcp-config" ∷ "--allowedTools" ∷ tools ∷ [])
        ++ (model ++ ctx.agent.extra_args))
    × IsOptional ("--model" ∷ ctx.agent.model ∷ []) model

-- Codex is called with this sandbox, the first option that names one.
abbrev pub HasSandbox : String → Command → Type 0
HasSandbox mode c =
    (dir : String) × (user after : List String) × (c.argv
      ≡ ("codex" ∷ "exec" ∷ "--skip-git-repo-check" ∷ "-C" ∷ dir ∷ [])
        ++ (user ++ ("--sandbox" ∷ mode ∷ after)))
    × IsOptional ("--ignore-user-config" ∷ []) user

IsOptional-when : (b : Bool) (words : List String) → IsOptional words (when b words)
IsOptional-when true words = inr refl
IsOptional-when false words = inl refl

claude_line-HasTools :
    (h : Host) (ctx : TaskContext) (write run : Bool)
    → HasTools ctx (granted write run) (claude_line h ctx (tools_for write run))
unfolding claude_line
claude_line-HasTools h ctx write run =
    let named = not (ctx.agent.model == "") in
    let model = when named ("--model" ∷ ctx.agent.model ∷ []) in
    let path = h.data_path ⧺ ("/runs/" ⧺ (ctx.task_id ⧺ ".mcp.json")) in
    (path, model, rw (join-tools_for write run) refl, IsOptional-when named _)

codex_line-HasSandbox :
    (h : Host) (ctx : TaskContext) (w : Bool) → HasSandbox (sandbox w) (codex_line h ctx w)
unfolding codex_line
codex_line-HasSandbox h ctx false =
    let own = not ctx.agent.inherit_user_config in
    (_, when own ("--ignore-user-config" ∷ []), _, refl, IsOptional-when own _)
codex_line-HasSandbox h ctx true =
    let own = not ctx.agent.inherit_user_config in
    (_, when own ("--ignore-user-config" ∷ []), _, refl, IsOptional-when own _)

-- What the agent's permissions grant counts only for a request of kind code or experiment: then
-- WRITE_WORKTREE grants Claude Code the tools to edit and git, RUN_EXPERIMENT the shell, and either one a
-- sandbox of Codex that can be written. Any other kind has the reading tools alone and a sandbox that can
-- not be written, whatever the agent may do. The arguments that an agent's configuration adds stand behind
-- these and are not looked at; the script runtime is given neither tools nor a sandbox.
pub least_privilege :
    (h : Host) (ctx : TaskContext) (k : String)
    → HasKind ctx k
    → let write = is_work k && has ctx.agent Permission.write_worktree in
      let run = is_work k && has ctx.agent Permission.run_experiment in
      ((c : Command) × (claude_command h ctx ≡ ok c) × HasTools ctx (granted write run) c)
      × ((c : Command) × (codex_command h ctx ≡ ok c) × HasSandbox (sandbox (write || run)) c)
least_privilege h ctx k e =
    let write = is_work k && has ctx.agent Permission.write_worktree in
    let run = is_work k && has ctx.agent Permission.run_experiment in
    let (claude, codex) = commands_for h ctx k e in
    (
      (_, claude, claude_line-HasTools h ctx write run),
      (_, codex, codex_line-HasSandbox h ctx (write || run)),
    )
