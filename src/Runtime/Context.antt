-- ===== src/Runtime/Context.antt =====
-- `TaskContext` (src/mutmuas/runtime.py): the permissions of a task, its environment and the JSON that a
-- script reads.
use Prim.Native.String.{◌++◌ as ◌⧺◌}
use mutmuas.Prelude.{
  ℕ, String, Bool, ◌&&◌, Option, none, some, List, [], ◌∷◌, any, ◌==◌, if◌then◌else◌,
}
use mutmuas.Result.{Result, ok, err, type_error}
use mutmuas.Json.{Json, null, num, int, str, arr, obj, field, end, get_or}
use mutmuas.Config.{AgentConfig, NodeConfig, permission_text, has}
use mutmuas.Protocol.Types.{Permission}
use mutmuas.Protocol.Envelope.{Envelope}
use mutmuas.Protocol.Codec.{to_dict}

pub record TaskContext : Type 0 where
  pub task_id : String
  pub request : Envelope
  pub agent : AgentConfig
  pub node : NodeConfig
  pub attempt : ℕ
  pub workdir : Option String
  pub git_branch : Option String

-- What the operating system and Python's printers answer: the path of the interpreter, the process's
-- environment, the directory that a configured path stands for, the directory of the node's data, and texts
-- of JSON (plain, with characters beyond ASCII, indented) and of numbers.
pub record Host : Type 0 where
  pub executable : String
  pub environ : List (String × String)
  pub resolve : String → String
  pub data_path : String
  pub dumps : Json → String
  pub dumps_unicode : Json → String
  pub dumps_pretty : Json → String
  pub show : ℕ → String

-- `TaskContext.cwd`; the agent's directory is resolved by the operating system.
unfoldable pub cwd : Host → TaskContext → String
cwd h ctx = elim ctx.workdir [ none ↦ h.resolve ctx.agent.workdir | some d ↦ d ]

-- needed.get(kind, set()): a list or an object cannot be looked up.
unfoldable pub needed : Json → Result (List Permission)
needed (str s) =
    if s == "code"
    then ok (Permission.write_worktree ∷ Permission.run_experiment ∷ [])
    else if s == "experiment"
    then ok (Permission.run_experiment ∷ Permission.write_worktree ∷ [])
    else ok []
needed (arr _) = err type_error
needed (obj _) = err type_error
needed _ = ok []

abbrev pub among : List Permission → Permission → Bool
among l p = any (λ q. permission_text q == permission_text p) l

-- `TaskContext.allows`
unfoldable pub allows : TaskContext → Permission → Result Bool
unfolding needed
allows ctx p = elim (needed (get_or ctx.request.body "kind" (str "query"))) [
  | err e ↦ err e
  | ok l ↦ ok (among l p && has ctx.agent p)
]

-- `TaskContext.address`
unfoldable pub address : TaskContext → String
address ctx = ctx.node.node ⧺ (":" ⧺ ctx.agent.id)

-- d[key] = value, and d.update(other)
abbrev pub set : String → String → List (String × String) → List (String × String)
set k v [] = (k, v) ∷ []
set k v ((l, w) ∷ rest) = if l == k then (l, v) ∷ rest else (l, w) ∷ set k v rest

abbrev pub update : List (String × String) → List (String × String) → List (String × String)
update d [] = d
update d ((k, v) ∷ rest) = update (set k v d) rest

abbrev pub text_or_empty : Option String → String
text_or_empty none = ""
text_or_empty (some s) = s

-- The variables that tell the process who it is and which task it runs.
unfoldable pub binding : TaskContext → List (String × String)
unfolding address
binding ctx =
    ("MUTMUAS_CONFIG", text_or_empty ctx.node.path)
    ∷ ("MUTMUAS_AGENT", address ctx)
    ∷ ("MUTMUAS_TASK_ID", ctx.task_id)
    ∷ ("MUTMUAS_PROJECT", ctx.node.project)
    ∷ []

-- `TaskContext.env`
unfoldable pub env : Host → TaskContext → List (String × String)
unfolding binding
env h ctx = update (update h.environ ctx.agent.env) (binding ctx)

abbrev pub text_or_null : Option String → Json
text_or_null none = null
text_or_null (some s) = str s

-- `TaskContext.payload`
unfoldable pub payload : Host → TaskContext → Json
unfolding address cwd to_dict
payload h ctx = obj (
    field "task_id" (str ctx.task_id) (
      field "agent" (str (address ctx)) (
        field "attempt" (num (int ctx.attempt)) (
          field "workdir" (str (cwd h ctx)) (
            field "git_branch" (text_or_null ctx.git_branch)
              (field "request" (to_dict ctx.request) end))))))
