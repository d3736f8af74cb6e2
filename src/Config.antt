-- ===== src/Config.antt =====
-- The node's configuration (src/mutmuas/config.py: AgentConfig, NodeConfig): its checks, the
-- permissions of an agent and the senders that it accepts.
pub mod EnvFile
pub mod Load
pub mod Nats
use mutmuas.Prelude.{
  ℕ, String, Bool, true, false, not, ◌&&◌, ◌||◌, Option, none, some, List, [], ◌∷◌, any, all, find,
  ◌==◌,
}
use mutmuas.Result.{Result, ok, err, config_error, raise_if, ◌>>◌}
use mutmuas.Ids.{check_token}
use mutmuas.Protocol.Types.{Permission}
use mutmuas.Glob.{fnmatchcase}

-- Times are in seconds.
pub record AgentConfig : Type 0 where
  pub id : String
  pub mode : String
  pub runtime : Option String
  pub role : String
  pub display : String
  pub provider : String
  pub model : String
  pub description : String
  pub workdir : String
  pub repo : String
  pub capabilities : List String
  pub permissions : List String
  pub accept_from : List String
  pub max_concurrent : ℕ
  pub task_timeout_s : ℕ
  pub max_attempts : ℕ
  pub command : List String
  pub extra_args : List String
  pub inherit_user_config : Bool
  pub network : Bool
  pub notify : List String
  pub env : List (String × String)

-- The fields that the code below the loading of the file reads.
pub record NodeConfig : Type 0 where
  pub project : String
  pub node : String
  pub agents : List AgentConfig
  pub path : Option String

abbrev pub permission_text : Permission → String
permission_text Permission.read = "READ"
permission_text Permission.write_worktree = "WRITE_WORKTREE"
permission_text Permission.run_experiment = "RUN_EXPERIMENT"
permission_text Permission.publish_artifact = "PUBLISH_ARTIFACT"
permission_text Permission.request_task = "REQUEST_TASK"
permission_text Permission.merge = "MERGE"
permission_text Permission.admin = "ADMIN"

abbrev pub contains : List String → String → Bool
contains l s = any (λ t. t == s) l

abbrev pub known_permissions : List String
known_permissions =
    "READ" ∷ "WRITE_WORKTREE" ∷ "RUN_EXPERIMENT" ∷ "PUBLISH_ARTIFACT" ∷ "REQUEST_TASK" ∷ "MERGE"
    ∷ "ADMIN" ∷ []

abbrev is_runtime : Option String → Bool
is_runtime none = false
is_runtime (some r) = contains ("claude-code" ∷ "codex" ∷ "script" ∷ []) r

abbrev is_script : Option String → Bool
is_script none = false
is_script (some r) = r == "script"

abbrev no_command : List String → Bool
no_command [] = true
no_command (_ ∷ _) = false

-- `AgentConfig.validate`
unfoldable pub validate_agent : AgentConfig → Result (Unit {0})
validate_agent a = do
  check_token a.id
  raise_if (not (contains ("worker" ∷ "interactive" ∷ []) a.mode)) config_error
  raise_if (a.mode == "worker" && not (is_runtime a.runtime)) config_error
  raise_if (a.mode == "worker" && (is_script a.runtime && no_command a.command)) config_error
  raise_if (not (all (contains known_permissions) a.permissions)) config_error

-- The loop of `NodeConfig.validate`, with the ids that it has seen.
unfoldable pub validate_agents : List String → List AgentConfig → Result (Unit {0})
unfolding validate_agent
validate_agents seen [] = ok tt
validate_agents seen (a ∷ agents) = do
  validate_agent a
  raise_if (contains seen a.id) config_error
  validate_agents (a.id ∷ seen) agents

unfoldable pub validate_node : NodeConfig → Result (Unit {0})
unfolding validate_agents
validate_node c = do check_token c.project; check_token c.node; validate_agents [] c.agents

-- `AgentConfig.has`
unfoldable pub has : AgentConfig → Permission → Bool
has a p = contains a.permissions "ADMIN" || contains a.permissions (permission_text p)

-- `AgentConfig.accepts`
unfoldable pub accepts : AgentConfig → String → Bool
accepts a sender = any (fnmatchcase sender) a.accept_from

-- `NodeConfig.agent`
unfoldable pub agent : NodeConfig → String → Result AgentConfig
agent c id = elim (find (λ (a : AgentConfig). a.id == id) c.agents) [
  | none ↦ err config_error
  | some a ↦ ok a
]
