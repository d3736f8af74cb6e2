-- ===== src/Node/Cards.antt =====
-- What a node tells the others of itself and its agents (src/mutmuas/node.py: _publish_cards), and one
-- round of its outbox loop. The fields that are copied from the configuration are left out.
use mutmuas.Prelude.{
  ℕ, String, Bool, true, false, ◌&&◌, ◌+◌, ◌-◌, Option, none, some, List, [], ◌∷◌, map, any, select,
  length, ◌==◌, if◌then◌else◌,
}
use mutmuas.Exec.{◌>>◌, pure, catch}
use mutmuas.Ids.{to_text, partition}
use mutmuas.Config.{AgentConfig, NodeConfig}
use mutmuas.Protocol.Types.{TaskState}
use mutmuas.Ledger.Rows.{inbound, outbound, new, owner, Task}
use mutmuas.Ledger.Rows
use mutmuas.Ledger.Inbox.{always, unseen_count, count}
use mutmuas.Ledger.Tasks.{tasks}
use mutmuas.Hub.State.{State, M}
use mutmuas.Hub.Sending.{flush_outbox}

pub record NodeCard : Type 0 where
  pub state : String
  pub agents : List String
  pub outbox_queued : ℕ

unfoldable pub node_card : Option String → State → NodeCard
unfolding count
node_card override s = record {
  state = elim override [ none ↦ "online" | some o ↦ o ];
  agents = map (λ (a : AgentConfig). a.id) s.cfg.agents;
  outbox_queued = count outbound Rows.queued none s.ledger;
}

pub record AgentCard : Type 0 where
  pub address : String
  pub state : String
  pub current_task : Option String
  pub open_tasks : ℕ
  pub queue : ℕ
  pub inbox_unread : ℕ

abbrev of_agent : String → String × String → Bool
of_agent addr (a, t) = a == addr

abbrev is_running : TaskState → Bool
is_running TaskState.running = true
is_running _ = false

-- The tasks of an agent that run: an interactive agent has no runner, and runs what it has accepted.
abbrev pub running_tasks : AgentConfig → String → List Task → State → List String
running_tasks a addr opened s =
    if a.mode == "interactive"
    then map (λ (t : Task). t.task_id) (select (λ (t : Task). is_running t.status) opened)
    else select (λ t. any (λ e. of_agent addr e && e.1 == t) s.queued) s.running

abbrev working : List String → String
working [] = "idle"
working (_ ∷ _) = "working"

abbrev first_of : List String → Option String
first_of [] = none
first_of (t ∷ _) = some t

-- The card of an agent; `pending` is what the server still holds for it, if it answers.
unfoldable pub agent_card : Option String → Option ℕ → AgentConfig → State → AgentCard
unfolding tasks unseen_count count
agent_card override pending a s =
    let addr = to_text (record { node = s.cfg.node; agent = a.id }) in
    let opened =
      tasks owner
        (TaskState.pending ∷ TaskState.accepted ∷ TaskState.running ∷ TaskState.waiting
          ∷ TaskState.blocked ∷ [])
        (some addr) (some 200) s.ledger in
    let running = running_tasks a addr opened s in
    record {
      address = addr;
      state = elim override [ none ↦ working running | some o ↦ o ];
      current_task = first_of running;
      open_tasks = length opened;
      queue = length (select (of_agent addr) s.queued) - length running;
      inbox_unread =
          (if a.mode == "interactive"
            then unseen_count addr [] always s.ledger
            else count inbound new (some addr) s.ledger + elim pending [ none ↦ 0 | some n ↦ n ]);
    }

-- One round of `_outbox_loop`: a failure is logged, and the next round tries again.
unfoldable pub outbox_round : M (Unit {0})
unfolding flush_outbox
outbox_round = catch (do flush_outbox; pure tt) (λ _. pure tt)

-- `_forget_removed_agents`: the agents of the registry's keys that the configuration does not have.
unfoldable pub removed_agents : NodeConfig → List String → List String
unfolding partition
removed_agents c [] = []
removed_agents c (key ∷ keys) =
    let rest = removed_agents c keys in
    elim (partition b'.' key) [
      | none ↦ rest
      | some (_, id) ↦ if any (λ (a : AgentConfig). a.id == id) c.agents then rest else id ∷ rest
    ]
