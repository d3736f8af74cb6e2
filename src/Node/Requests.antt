-- ===== src/Node/Requests.antt =====
-- A REQUEST at its owner: `_on_request`, `_check_policy`, `_accept`, `_enqueue` and `_notify`
-- (src/mutmuas/node.py).
use Prim.Native.String.{◌++◌ as ◌⧺◌}
use mutmuas.Prelude.{
  String, Bool, true, false, not, ◌&&◌, Option, none, some, List, [], ◌∷◌, ◌++◌, any, clip, ◌==◌,
  if◌then◌else◌,
}
use mutmuas.Result.{Result, ok, err, key_error, type_error, untyped}
use mutmuas.Exec.{◌>>=◌, ◌>>◌, gets, modify, pure, lift, catch}
use mutmuas.Json.{Json, null, bool, str, arr, Fields, end, field, get_or}
use mutmuas.Protocol.Types.{MessageType, TaskState, needed_permission, is_terminal}
use mutmuas.Protocol.Envelope.{Envelope, check_kind}
use mutmuas.Config.{AgentConfig, has, accepts, permission_text}
use mutmuas.Ledger.Rows.{Task, owner}
use mutmuas.Ledger.Tasks.{task, create_owned_task}
use mutmuas.Hub.State.{State, M, transaction}
use mutmuas.Hub.Sending.{new_envelope, send}
use mutmuas.Hub.Requests.{reply, or_raise}
use mutmuas.Hub.Owner.{owner_transition, publish_task_record}

-- `task(env.task_id, "owner")`; NULL equals no id.
abbrev pub owned_task : Option String → State → Option Task
owned_task none s = none
owned_task (some id) s = task id owner s.ledger

-- `_check_policy`: the reason of a refusal, if there is one.
abbrev pub kind_text : Json → String
kind_text (str s) = s
kind_text _ = ""

unfoldable pub check_policy : AgentConfig → Envelope → Result (Option String)
unfolding has accepts
check_policy agent env =
    if not (accepts agent env.sender)
    then ok
        (some ("permission denied: " ⧺ (env.to ⧺ (" does not accept requests from " ⧺ env.sender))))
    else elim (check_kind (get_or env.body "kind" (str "query"))) [
      | err e ↦ err e
      | ok k ↦
          if not (has agent (needed_permission k))
          then ok (
              some (
                "permission denied: "
                ⧺ (env.to
                    ⧺ (" lacks "
                        ⧺ (permission_text (needed_permission k)
                            ⧺ (" required for kind="
                                ⧺ kind_text (get_or env.body "kind" (str "query"))))))))
          else ok none
    ]

-- `_accept`
unfoldable pub accept : String → M Bool
unfolding owner_transition
accept task_id =
    owner_transition task_id TaskState.accepted (str "accepted into queue") MessageType.ack
      (some (field "state" (str "ACCEPTED") (field "message" (str "accepted into queue") end)))

abbrev pub is_pair : String → String → String × String → Bool
is_pair a t (b, u) = b == a && u == t

-- `_enqueue`: a task is put in the queue once, until its runner is done with it.
unfoldable pub enqueue : String → String → State → State
enqueue addr task_id s = if any (is_pair addr task_id) s.queued then s else record s {
  queued = s.queued ++ ((addr, task_id) ∷ []);
  queue = s.queue ++ ((addr, task_id) ∷ []);
}

abbrev pub notify_one : String → String → String → String → M (Unit {0})
notify_one sender task_id text target = do
  env ← new_envelope (record {
    type = MessageType.update;
    sender = sender;
    to = target;
    body = field "message" (str text) (field "fyi" (bool true) end);
    task_id = some task_id;
    conversation_id = none;
    artifacts = [];
    reply_to = null;
    priority = "normal";
  })
  send env
  pure tt

-- `_notify`: a failure for one target is logged, and the next one is tried.
unfoldable pub notify : List String → String → String → String → M (Unit {0})
unfolding send
notify [] sender task_id text = pure tt
notify (target ∷ rest) sender task_id text = do
  catch (notify_one sender task_id text target) (λ _. pure tt)
  notify rest sender task_id text

-- str(objective)[:300]; what is no sequence cannot be sliced.
abbrev pub sliced : Json → Result String
sliced (str s) = ok (clip 300 s)
sliced (arr _) = err untyped
sliced _ = err type_error

-- What a handler answers: nothing, by which its message is handled, or that it was rejected.
pub data Disposition : Type 0 where
  handled rejected : Disposition

-- What is done with a request that the policy admits, by the mode of the agent.
abbrev pub take_on : AgentConfig → Envelope → String → M Disposition
take_on agent env task_id =
    if agent.mode == "worker"
    then (do
      accept task_id
      modify (enqueue env.to task_id)
      objective ← lift (sliced (get_or env.body "objective" (str "")))
      notify agent.notify env.to task_id (
          "FYI: "
          ⧺ (env.to
              ⧺ (" accepted a "
                  ⧺ (kind_text (get_or env.body "kind" (str "query"))
                      ⧺ (" task from " ⧺ (env.sender ⧺ (": " ⧺ objective)))))))
      pure handled)
    else (do
      reply env.to task_id MessageType.update
          (field "state" (str "PENDING") (
            field "message"
              (str ("delivered to the inbox of " ⧺ (env.to ⧺ "; waiting to be accepted"))) end))
          []
      pure handled)

abbrev pub refuse_or_take : AgentConfig → Envelope → String → Option String → M Disposition
refuse_or_take agent env task_id (some denial) = do
  owner_transition task_id TaskState.failed (str denial) MessageType.reject
      (some (field "reason" (str denial) end))
  pure rejected
refuse_or_take agent env task_id none = do publish_task_record task_id; take_on agent env task_id

abbrev pub is_full : Fields → Bool
is_full end = false
is_full (field _ _ _) = true

abbrev pub repeat_stored : Envelope → Task → Option Fields → M Disposition
repeat_stored env t none = pure handled
repeat_stored env t (some r) =
    if is_terminal t.status && is_full r
    then (do reply env.to t.task_id MessageType.result r t.output_refs; pure handled)
    else pure handled

-- A task that is there already: a finished one is answered with the stored result.
abbrev pub repeat_result : Envelope → Task → M Disposition
repeat_result env t = repeat_stored env t t.result

abbrev pub new_request : AgentConfig → Envelope → M Disposition
new_request agent env = do
  transaction (λ t l. create_owned_task t env l)
  denial ← lift (check_policy agent env)
  task_id ← or_raise env.task_id key_error
  refuse_or_take agent env task_id denial

abbrev pub request_found : AgentConfig → Envelope → Option Task → M Disposition
request_found agent env (some t) = repeat_result env t
request_found agent env none = new_request agent env

-- `_on_request`: the state in which the message is left.
unfoldable pub on_request : AgentConfig → Envelope → M Disposition
unfolding accept enqueue notify reply owner_transition publish_task_record check_policy
on_request agent env = do existing ← gets (owned_task env.task_id); request_found agent env existing
