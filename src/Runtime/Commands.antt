-- ===== src/Runtime/Commands.antt =====
-- The command lines of the runtimes (src/mutmuas/runtime.py: ScriptRuntime, ClaudeCodeRuntime,
-- CodexRuntime, make_runtime).
use Prim.Native.String.{◌++◌ as ◌⧺◌}
use mutmuas.Prelude.{
  String, Bool, true, not, ◌&&◌, Option, none, some, List, [], ◌∷◌, ◌++◌, map, ◌==◌, if◌then◌else◌,
  join,
}
use mutmuas.Result.{Result, ok, err, key_error, ◌>>=◌}
use mutmuas.Json.{Json, str, obj, field, end, arr, items}
use mutmuas.Protocol.Types.{Permission}
use mutmuas.Runtime.Context.{TaskContext, Host, cwd, allows, address, payload, text_or_empty}
use mutmuas.Runtime.Prompt.{worker_prompt}

-- What is to be run: the words of the command line, the text on its standard input, and the file that
-- is written before, if there is one.
pub record Command : Type 0 where
  pub argv : List String
  pub stdin : String
  pub config : Option (String × String)

abbrev python_word : Host → String → String
python_word h a = if a == "{python}" then h.executable else a

-- `ScriptRuntime.command`
unfoldable pub script_command : Host → TaskContext → Command
unfolding payload
script_command h ctx = record {
  argv = map (python_word h) ctx.agent.command ++ ctx.agent.extra_args;
  stdin = h.dumps (payload h ctx);
  config = none;
}

abbrev pub server_args : Json
server_args = arr (items (str "-m" ∷ str "mutmuas.cli" ∷ str "mcp" ∷ []))

abbrev server_env : TaskContext → List (String × String)
server_env ctx =
    ("MUTMUAS_CONFIG", text_or_empty ctx.node.path)
    ∷ ("MUTMUAS_AGENT", address ctx)
    ∷ ("MUTMUAS_TASK_ID", ctx.task_id)
    ∷ []

abbrev env_json : List (String × String) → Json
env_json vars = obj (fields vars)
  where
    fields : List (String × String) → mutmuas.Json.Fields
    fields [] = end
    fields ((k, v) ∷ rest) = field k (str v) (fields rest)

-- `_mcp_server_spec`
unfoldable pub mcp_server_spec : Host → TaskContext → Json
unfolding address
mcp_server_spec h ctx = obj (
    field "command" (str h.executable)
      (field "args" server_args (field "env" (env_json (server_env ctx)) end)))

abbrev pub when : Bool → List String → List String
when b words = if b then words else []

abbrev pub read_tools : List String
read_tools = "mcp__mutmuas" ∷ "Read" ∷ "Glob" ∷ "Grep" ∷ []

abbrev pub tools_for : Bool → Bool → List String
tools_for write run =
    read_tools ++ (when write ("Edit" ∷ "Write" ∷ "Bash(git:*)" ∷ []) ++ when run ("Bash" ∷ []))

-- The tools that Claude Code may use without asking.
unfoldable pub allowed_tools : TaskContext → Result (List String)
unfolding allows
allowed_tools ctx = do
  write ← allows ctx Permission.write_worktree
  run ← allows ctx Permission.run_experiment
  ok (tools_for write run)

abbrev model_words : String → TaskContext → List String
model_words flag ctx = when (not (ctx.agent.model == "")) (flag ∷ ctx.agent.model ∷ [])

-- The call of Claude Code with the tools that it may use.
unfoldable pub claude_line : Host → TaskContext → List String → Command
unfolding mcp_server_spec worker_prompt
claude_line h ctx tools =
    let cfg_path = h.data_path ⧺ ("/runs/" ⧺ (ctx.task_id ⧺ ".mcp.json")) in
    let servers =
      obj (field "mcpServers" (obj (field "mutmuas" (mcp_server_spec h ctx) end)) end) in
    record {
      argv =
          ("claude"
            ∷ "-p"
            ∷ "--output-format"
            ∷ "json"
            ∷ "--mcp-config"
            ∷ cfg_path
            ∷ "--strict-mcp-config"
            ∷ "--allowedTools"
            ∷ join "," tools
            ∷ [])
          ++ (model_words "--model" ctx ++ ctx.agent.extra_args);
      stdin = worker_prompt h ctx;
      config = some (cfg_path, h.dumps servers);
    }

-- `ClaudeCodeRuntime.command`
unfoldable pub claude_command : Host → TaskContext → Result Command
unfolding allowed_tools claude_line
claude_command h ctx = do tools ← allowed_tools ctx; ok (claude_line h ctx tools)

abbrev env_toml_words : Host → List (String × String) → List String
env_toml_words h vars = map (λ (p : String × String). p.0 ⧺ (" = " ⧺ h.dumps (str p.1))) vars

abbrev env_toml : Host → TaskContext → String
env_toml h ctx = "{" ⧺ (join ", " (env_toml_words h (server_env ctx)) ⧺ "}")

-- Whether the sandbox of Codex lets the process write.
unfoldable pub writable : TaskContext → Result Bool
unfolding allows
writable ctx = do
  write ← allows ctx Permission.write_worktree
  if write then ok true else allows ctx Permission.run_experiment

abbrev pub sandbox_mode : Bool → String
sandbox_mode w = if w then "workspace-write" else "read-only"

-- The call of Codex in a sandbox that may be written, or not.
unfoldable pub codex_line : Host → TaskContext → Bool → Command
unfolding cwd worker_prompt
codex_line h ctx w = record {
  argv =
      ("codex" ∷ "exec" ∷ "--skip-git-repo-check" ∷ "-C" ∷ cwd h ctx ∷ [])
      ++ (when (not ctx.agent.inherit_user_config) ("--ignore-user-config" ∷ [])
          ++ (("--sandbox"
                ∷ sandbox_mode w
                ∷ "-c"
                ∷ "approval_policy=\"never\""
                ∷ "-c"
                ∷ ("mcp_servers.mutmuas.command=" ⧺ h.dumps (str h.executable))
                ∷ "-c"
                ∷ ("mcp_servers.mutmuas.args=" ⧺ h.dumps server_args)
                ∷ "-c"
                ∷ ("mcp_servers.mutmuas.env=" ⧺ env_toml h ctx)
                ∷ "-c"
                ∷ "mcp_servers.mutmuas.default_tools_approval_mode=\"approve\""
                ∷ [])
              ++ (when (w && ctx.agent.network)
                    ("-c" ∷ "sandbox_workspace_write.network_access=true" ∷ [])
                  ++ (model_words "-m" ctx ++ (ctx.agent.extra_args ++ "-" ∷ [])))));
  stdin = worker_prompt h ctx;
  config = none;
}

-- `CodexRuntime.command`
unfoldable pub codex_command : Host → TaskContext → Result Command
unfolding writable codex_line
codex_command h ctx = do w ← writable ctx; ok (codex_line h ctx w)

-- The member of RUNTIMES that a configuration names.
pub data Runtime : Type 0 where
  script claude_code codex : Runtime

abbrev pub runtime_named : String → Result Runtime
runtime_named s =
    if s == "script"
    then ok script
    else if s == "claude-code"
    then ok claude_code
    else if s == "codex"
    then ok codex
    else err key_error

-- `make_runtime`; an agent without a runtime is no key of the table.
unfoldable pub make_runtime : Option String → Result Runtime
make_runtime none = err key_error
make_runtime (some s) = runtime_named s

unfoldable pub command : Runtime → Host → TaskContext → Result Command
unfolding script_command claude_command codex_command
command script h ctx = ok (script_command h ctx)
command claude_code h ctx = claude_command h ctx
command codex h ctx = codex_command h ctx
