-- ===== src/Node/Dispatch.antt =====
-- The dispatcher (src/mutmuas/node.py: _dispatcher, _handle, _on_cancel, _on_reply).
use Prim.Native.String.{◌++◌ as ◌⧺◌}
use mutmuas.Prelude.{
  ◌≡◌, refl, String, Bool, true, false, not, ◌||◌, Option, none, some, List, [], ◌∷◌, any, ◌==◌,
  if◌then◌else◌,
}
use mutmuas.Result
use mutmuas.Result.{Error, Result, ok, err, key_error, untyped}
use mutmuas.Exec.{◌>>=◌, ◌>>◌, gets, modify, pure, lift, catch}
use mutmuas.Json.{Json, null, str, get, or_else, truthy}
use mutmuas.Protocol.Types.{MessageType, TaskState, is_terminal, task_state, task_state_for_result}
use mutmuas.Protocol.Envelope.{Envelope}
use mutmuas.Protocol.Bodies.{result_body}
use mutmuas.Config.{AgentConfig}
use mutmuas.Ledger.Rows.{MessageState, dropped, Task, requester, is_settled}
use mutmuas.Ledger.Inbox
use mutmuas.Ledger.Inbox.{mark_seen}
use mutmuas.Ledger.Tasks.{
  task, update_task, Column, set_result, set_result_status, set_output_refs, set_last_message,
}
use mutmuas.Hub.State.{State, M, ask, transaction, on_ledger}
use mutmuas.Hub.Owner.{owner_transition, status_of}
use mutmuas.Node.Requests.{Disposition, handled, rejected, owned_task, on_request}

abbrev pub is_pending : TaskState → Bool
is_pending TaskState.pending = true
is_pending _ = false

-- The cancellation of a task that is open: a runner at work is told to stop, and reports itself.
abbrev pub cancel_open : Envelope → Task → M Disposition
cancel_open env t =
    if is_pending t.status
    then (do
      owner_transition t.task_id TaskState.cancelled
          (or_else (get env.body "reason") (str "withdrawn before it was accepted"))
          MessageType.update none
      modify (λ (s : State). record s { ledger = mark_seen t.task_id s.ledger })
      pure handled)
    else (do
      modify (λ (s : State). record s { cancel_requested = t.task_id ∷ s.cancel_requested })
      at_work ← gets (λ (s : State). any (λ id. id == t.task_id) s.running)
      if at_work
          then pure true
          else owner_transition t.task_id TaskState.cancelled
              (or_else (get env.body "reason") (str "cancelled by requester")) MessageType.update
              none
      pure handled)

abbrev pub cancel_found : Envelope → Option Task → M Disposition
cancel_found env none = pure handled
cancel_found env (some t) = if is_terminal t.status then pure handled else cancel_open env t

-- `_on_cancel`
unfoldable pub on_cancel : Envelope → M Disposition
unfolding owner_transition
on_cancel env = do found ← gets (owned_task env.task_id); cancel_found env found

-- The text of a value in a formatted string; that of a list or an object is outside the model.
abbrev shown : Json → Result String
shown (str s) = ok s
shown null = ok "None"
shown _ = err untyped

abbrev lower_type : MessageType → String
lower_type MessageType.reject = "reject"
lower_type _ = "error"

-- body.get("reason") or body.get("message")
abbrev pub failure : Envelope → Result (List Column)
failure env =
    Result.◌>>=◌ (shown (or_else (get env.body "reason") (get env.body "message"))) λ text.
      Result.◌>>=◌
        (result_body "failed" (lower_type env.type ⧺ (": " ⧺ text))
          (record { outputs = null; evidence = null; limitations = null; follow_up = null }))
        λ body. ok (set_result body ∷ set_result_status "failed" ∷ [])

-- body.get("state"), which has been checked
abbrev pub announced_state : Json → Option TaskState
announced_state (str s) = task_state s
announced_state _ = none

-- REQUESTER_TRANSITIONS.get(type)
abbrev requester_transition : MessageType → Option TaskState
requester_transition MessageType.ack = some TaskState.accepted
requester_transition MessageType.blocked = some TaskState.blocked
requester_transition MessageType.question = some TaskState.waiting
requester_transition MessageType.reject = some TaskState.failed
requester_transition MessageType.error = some TaskState.failed
requester_transition _ = none

-- The status and the columns, beside the last message, that a reply writes at the requester.
unfoldable pub reply_effect : MessageType → Envelope → Result (Option TaskState × List Column)
unfolding result_body
reply_effect MessageType.update env = ok (announced_state (get env.body "state"), [])
reply_effect MessageType.result env = Result.◌>>=◌ (status_of (get env.body "status")) λ s. ok (
  some (task_state_for_result s.1),
  set_result env.body ∷ set_result_status s.0 ∷ set_output_refs env.artifacts ∷ [],
)
reply_effect MessageType.reject env =
    Result.◌>>=◌ (failure env) λ columns. ok (some TaskState.failed, columns)
reply_effect MessageType.error env =
    Result.◌>>=◌ (failure env) λ columns. ok (some TaskState.failed, columns)
reply_effect type env = ok (requester_transition type, [])

abbrev pub requested_task : Option String → State → Option Task
requested_task none s = none
requested_task (some id) s = task id requester s.ledger

-- task is None or task["local_agent"] != env.to or env.body.get("fyi")
abbrev pub is_inbox_only : Envelope → Option Task → Bool
is_inbox_only env none = true
is_inbox_only env (some t) = not (t.local_agent == env.to) || truthy (get env.body "fyi")

abbrev pub reply_found : Envelope → Option Task → M Disposition
reply_found env none = pure handled
reply_found env (some t) = if is_inbox_only env (some t) then pure handled else (do
  effect ← lift (reply_effect env.type env)
  transaction (λ now l.
      update_task now t.task_id requester
        (record {
          status = effect.0;
          force = false;
          announce = none;
          columns = set_last_message env.message_id ∷ effect.1;
        })
        l)
  pure handled)

-- `_on_reply`
unfoldable pub on_reply : Envelope → M Disposition
unfolding reply_effect
on_reply env = do found ← gets (requested_task env.task_id); reply_found env found

abbrev pub handle_type : MessageType → AgentConfig → Envelope → M Disposition
handle_type MessageType.request agent env = on_request agent env
handle_type MessageType.cancel agent env = on_cancel env
handle_type MessageType.answer agent env = pure handled
handle_type _ agent env = on_reply env

-- `_handle`
unfoldable pub handle : AgentConfig → Envelope → M Disposition
unfolding on_request on_cancel on_reply
handle agent env = handle_type env.type agent env

-- state or "handled"
abbrev pub state_of : Disposition → MessageState
state_of handled = MessageState.handled
state_of rejected = MessageState.rejected

pub state_of_settled : (d : Disposition) → is_settled (state_of d) ≡ true
state_of_settled handled = refl
state_of_settled rejected = refl

abbrev pub mark : Envelope → MessageState → Option String → M (Unit {0})
mark env state error = on_ledger (λ t. Inbox.mark_handled t env.message_id state error)

abbrev pub drop_failed : Envelope → Error → M (Unit {0})
drop_failed env e = do
  k ← ask
  text ← gets (λ (s : State). s.world.error_text k)
  mark env dropped (some text)

-- One message of the loop: an exception drops it.
abbrev pub dispatch_one : AgentConfig → Envelope → M (Unit {0})
dispatch_one agent env =
    catch (do state ← handle agent env; mark env (state_of state) none) (drop_failed env)

abbrev pub dispatch_all : AgentConfig → List Envelope → M (Unit {0})
dispatch_all agent [] = pure tt
dispatch_all agent (env ∷ rest) = do dispatch_one agent env; dispatch_all agent rest

-- One round of `_dispatcher`, for what was unhandled when it began.
unfoldable pub dispatch : AgentConfig → String → M (Unit {0})
unfolding handle
dispatch agent addr = do
  envs ← gets (λ (s : State). Inbox.unhandled addr s.ledger)
  dispatch_all agent envs
