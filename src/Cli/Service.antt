-- ===== src/Cli/Service.antt =====
-- `agent-node service` on Linux, and `retire` (src/mutmuas/cli.py: node_service, node_retire). Paths are
-- given as they stand on the machine.
use Prim.Native.String.{◌++◌ as ◌⧺◌}
use mutmuas.Prelude.{
  String, Bool, not, ◌&&◌, ◌||◌, ℕ, Option, none, some, List, [], ◌∷◌, ◌++◌, any, ◌==◌,
  if◌then◌else◌, join, has_part,
}
use mutmuas.Result.{value_error, config_error, Result, ok, err}
use mutmuas.Ids.{Address, parse, partition, to_text}
use mutmuas.Config.{NodeConfig, AgentConfig, contains}
use mutmuas.Bus.Mailboxes.{Mailbox, Removed, remove_agent}

pub record Machine : Type 0 where
  pub cfg_path : String
  pub venv_bin : String
  pub python : String
  -- the directories that the tools were found in, then those of the system
  pub tool_dirs : List String
  pub home : String
  pub exists : String → Bool
  pub is_dir : String → Bool

-- What the unit runs, the suffix of its name and its description.
pub record Runs : Type 0 where
  pub argv : List String
  pub suffix : String
  pub what : String

abbrev agent_node : Machine → List String
agent_node m =
    let exe = m.venv_bin ⧺ "/agent-node" in
    if m.exists exe then exe ∷ [] else m.python ∷ "-m" ∷ "mutmuas.cli" ∷ "node" ∷ []

abbrev agentctl : Machine → List String
agentctl m =
    let ctl = m.venv_bin ⧺ "/agentctl" in
    if m.exists ctl then ctl ∷ [] else m.python ∷ "-m" ∷ "mutmuas.cli" ∷ []

abbrev is_configured : NodeConfig → String → Bool
is_configured c id = any (λ (a : AgentConfig). a.id == id) c.agents

abbrev watching : Machine → NodeConfig → Result Address → Result Runs
watching m c (err e) = err e
watching m c (ok watched) =
    if not (watched.node == c.node)
    then err value_error
    else if not (is_configured c watched.agent)
    then err config_error
    else ok (record {
      argv = agentctl m ++ ("watch" ∷ "--config" ∷ m.cfg_path ∷ "--as" ∷ to_text watched ∷ []);
      suffix = ".watch-" ⧺ watched.agent;
      what = "notifier for " ⧺ to_text watched;
    })

abbrev daemon : Machine → Runs
daemon m = record {
  argv = agent_node m ++ ("start" ∷ "--config" ∷ m.cfg_path ∷ []);
  suffix = "";
  what = "agent-node";
}

-- args.watch if ":" in args.watch else f"{cfg.node}:{args.watch}"
abbrev with_node : String → String → String
with_node node w = elim (partition b':' w) [ none ↦ node ⧺ ":" ⧺ w | some _ ↦ w ]

-- What the service runs: the daemon, or the notifier of one agent of this node. An agent of another node
-- ends the command, here with the error that stands for its text.
unfoldable pub service_runs : Machine → NodeConfig → Option String → Result Runs
unfolding parse partition to_text
service_runs m c none = ok (daemon m)
service_runs m c (some w) =
    if w == "" then ok (daemon m) else watching m c (parse (with_node c.node w))

-- dict.fromkeys(...): the first of equal ones stays
abbrev once : (String → Bool) → List String → List String → List String
once is_dir seen [] = []
once is_dir seen (d ∷ dirs) =
    let kept = once is_dir seen dirs in
    let rest = once is_dir (d ∷ seen) dirs in
    if not (is_dir d) || contains seen d then kept else d ∷ rest

unfoldable pub path_env : Machine → String
unfolding join
path_env m = join ":" (once m.is_dir [] (m.venv_bin ∷ m.tool_dirs))

-- any(h in srv for srv in cfg.nats.servers for h in (...)), and then
-- ("After=...\nWants=...\n" if local_server and (nats_unit.exists() or args.after_nats) else "")
abbrev is_local : String → Bool
is_local srv = has_part "127.0.0.1" srv || (has_part "localhost" srv || has_part "[::1]" srv)

abbrev order_of : Bool → Bool → Bool → String
order_of local_server unit_exists after_nats =
    if local_server && (unit_exists || after_nats)
    then "After=mutmuas-nats-server.service\nWants=mutmuas-nats-server.service\n"
    else ""

unfoldable pub unit_text : Machine → Runs → List String → Bool → String
unfolding path_env join has_part
unit_text m r servers after_nats =
    let nats_unit = m.home ⧺ "/.config/systemd/user/mutmuas-nats-server.service" in
    "[Unit]\nDescription=mutmuas "
    ⧺ r.what
    ⧺ " ("
    ⧺ m.cfg_path
    ⧺ ")\n"
    ⧺ order_of (any is_local servers) (m.exists nats_unit) after_nats
    ⧺ "\n[Service]\nExecStart="
    ⧺ join " " r.argv
    ⧺ "\nRestart=always\nRestartSec=5\nEnvironment=PATH="
    ⧺ path_env m
    ⧺ "\nKillMode=mixed\nTimeoutStopSec=30\n\n[Install]\nWantedBy=default.target\n"

unfoldable pub unit_name : NodeConfig → Runs → String
unit_name c r =
    if r.suffix == "" then "mutmuas-agent-node" else "mutmuas-agent-node-" ⧺ c.node ⧺ r.suffix

-- The file of the unit after `--write`, or none if the command refuses: the one that is there must name
-- this configuration, or the command is forced.
unfoldable pub write_unit : String → Bool → Option String → String → Option String
unfolding has_part
write_unit cfg_path force none text = some text
write_unit cfg_path force (some old) text =
    if not (has_part cfg_path old) && not force then none else some text

-- What a node leaves on the server.
pub record Leaving : Type 0 where
  pub node_cards : List String
  pub mailboxes : List Mailbox

-- The agents of the keys of the registry, each with what the server says waits in its mailbox.
unfoldable pub remove_all :
    Bool → List (Address × Option (ℕ × ℕ)) → List Mailbox → List (Address × Removed) × List Mailbox
unfolding remove_agent
remove_all force [] boxes = ([], boxes)
remove_all force ((agent, info) ∷ rest) boxes =
    let (done, left) = remove_agent info agent force boxes in
    let (others, last) = remove_all force rest left in ((agent, done) ∷ others, last)

abbrev without_node : String → List String → List String
without_node node [] = []
without_node node (n ∷ ns) = if n == node then without_node node ns else n ∷ without_node node ns

-- `node_retire`: none if the node is online and the command is not forced.
unfoldable pub node_retire :
    String
    → Bool
    → Bool
    → List (Address × Option (ℕ × ℕ))
    → Leaving
    → Option (List (Address × Removed) × Leaving)
unfolding remove_all
node_retire node online force agents l =
    if online && not force
    then none
    else (let (done, boxes) = remove_all force agents l.mailboxes in
        some (done, record { node_cards = without_node node l.node_cards; mailboxes = boxes }))
