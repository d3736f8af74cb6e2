-- ===== src/Node/Recover.antt =====
-- The start of a daemon: every open task of a worker is put back in its queue (src/mutmuas/node.py:
-- recover, _agent_cfg).
use Prim.Native.String.{◌++◌ as ◌⧺◌}
use mutmuas.Prelude.{
  String, Bool, false, ◌&&◌, Option, none, some, List, [], ◌∷◌, find, ◌==◌, if◌then◌else◌,
}
use mutmuas.Result.{Result, ok, err}
use mutmuas.Exec.{◌>>=◌, ◌>>◌, gets, modify, pure, lift}
use mutmuas.Json.{str}
use mutmuas.Ids.{parse}
use mutmuas.Protocol.Types.{MessageType, TaskState}
use mutmuas.Config.{AgentConfig, NodeConfig}
use mutmuas.Ledger.Rows.{Task, owner}
use mutmuas.Ledger.Tasks.{tasks}
use mutmuas.Hub.State.{State, M}
use mutmuas.Hub.Sending.{flush_outbox}
use mutmuas.Hub.Owner.{owner_transition, publish_task_record}
use mutmuas.Node.Requests.{accept, enqueue}

-- `_agent_cfg`
unfoldable pub agent_cfg : NodeConfig → String → Result (Option AgentConfig)
agent_cfg c address = elim (parse address) [
  | err e ↦ err e
  | ok a ↦ ok (find (λ (x : AgentConfig). x.id == a.agent && a.node == c.node) c.agents)
]

-- The status of a task that is resumed: one that ran is accepted again, one that waited is accepted.
abbrev pub reopen : String → Task → TaskState → M Bool
reopen node t TaskState.running =
    owner_transition t.task_id TaskState.accepted
      (str ("node " ⧺ (node ⧺ " restarted; task will be resumed"))) MessageType.update none
reopen node t TaskState.pending = accept t.task_id
reopen node t _ = pure false

abbrev pub resume : String → Task → Option AgentConfig → M (Unit {0})
resume node t none = pure tt
resume node t (some a) =
    if a.mode == "worker"
    then (do reopen node t t.status; modify (enqueue t.owner t.task_id))
    else pure tt

abbrev pub resume_all : List Task → M (Unit {0})
resume_all [] = pure tt
resume_all (t ∷ ts) = do
  c ← gets (λ (s : State). s.cfg)
  a ← lift (agent_cfg c t.owner)
  resume c.node t a
  resume_all ts

abbrev pub publish_all : List Task → M (Unit {0})
publish_all [] = pure tt
publish_all (t ∷ ts) = do publish_task_record t.task_id; publish_all ts

-- `recover`
unfoldable pub recover : M (Unit {0})
unfolding owner_transition accept enqueue publish_task_record flush_outbox agent_cfg
recover = do
  open_tasks ← gets (λ (s : State).
      tasks owner (TaskState.pending ∷ TaskState.accepted ∷ TaskState.running ∷ []) none none
        s.ledger)
  resume_all open_tasks
  owned_tasks ← gets (λ (s : State). tasks owner [] none (some 500) s.ledger)
  publish_all owned_tasks
  flush_outbox
  pure tt
