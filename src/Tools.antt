-- ===== src/Tools.antt =====
-- The operations of the agents (src/mutmuas/tools.py).
pub mod Inbox
pub mod Requests
pub mod Views
pub mod Ownership
pub mod Steps
pub mod InboxSteps
use Prim.Native.String.{◌++◌ as ◌⧺◌}
use mutmuas.Prelude.{
  String, Bool, true, false, Option, none, some, List, [], ◌∷◌, map, ◌==◌, if◌then◌else◌,
}
use mutmuas.Result.{permission_denied, key_error, value_error}
use mutmuas.Exec.{◌>>=◌, ◌>>◌, gets, pure, raise, lift}
use mutmuas.Json.{Json, str, arr, Fields, end, field, items, put}
use mutmuas.Ids.{Address, to_text}
use mutmuas.Protocol.Types.{MessageType, TaskState, is_terminal, task_state, state_text}
use mutmuas.Protocol.Envelope.{ArtifactRef}
use mutmuas.Protocol.Codec.{ref_to_dict, refs_from}
use mutmuas.Protocol.Bodies.{result_body, ResultOptions}
use mutmuas.Ledger.Rows.{Task, requester, owner}
use mutmuas.Ledger.Tasks.{task, update_task, set_result_draft}
use mutmuas.Hub.State.{State, M, transaction}
use mutmuas.Hub.Sending.{Sent}
use mutmuas.Hub.Requests.{local_agent, reply}
use mutmuas.Hub.Owner.{owner_transition, finish}

abbrev pub owned_by : Address → Option Task → M Task
owned_by addr none = raise permission_denied
owned_by addr (some t) = if t.owner == to_text addr then pure t else raise permission_denied

-- `_owned`: the task, if the acting agent owns it.
unfoldable pub owned : String → String → M Task
unfolding local_agent
owned me task_id = do
  c ← gets (λ (s : State). s.cfg)
  who ← lift (local_agent c (some me))
  found ← gets (λ (s : State). task task_id owner s.ledger)
  owned_by who.0 found

unfoldable pub accept_task : String → String → M Bool
unfolding owned owner_transition
accept_task me task_id = do
  owned me task_id
  owner_transition task_id TaskState.running (str ("accepted by " ⧺ me)) MessageType.ack
      (some (field "state" (str "RUNNING") (field "message" (str ("accepted by " ⧺ me)) end)))

unfoldable pub reject_task : String → String → String → M Bool
unfolding owned owner_transition
reject_task me task_id reason = do
  owned me task_id
  owner_transition task_id TaskState.failed (str reason) MessageType.reject
      (some (field "reason" (str reason) end))

-- task_id or _current_task(): the task of the run, from the environment.
abbrev pub target : Option String → Option String → M String
target none none = raise value_error
target none (some current) = pure current
target (some id) none = if id == "" then raise value_error else pure id
target (some id) (some current) = pure (if id == "" then current else id)

-- state or task["status"], and RUNNING for all but RUNNING, WAITING and BLOCKED
abbrev pub reportable : Option TaskState → TaskState
reportable (some TaskState.waiting) = TaskState.waiting
reportable (some TaskState.blocked) = TaskState.blocked
reportable _ = TaskState.running

unfoldable pub progress_state : Option String → TaskState → TaskState
progress_state none current = reportable (some current)
progress_state (some s) current = reportable (if s == "" then some current else task_state s)

abbrev pub progress_type : TaskState → MessageType
progress_type TaskState.blocked = MessageType.blocked
progress_type _ = MessageType.update

abbrev pub progress_body : TaskState → String → Fields
progress_body TaskState.blocked message = field "reason" (str message) end
progress_body s message = field "state" (str (state_text s)) (field "message" (str message) end)

-- The current task of the environment is an argument.
unfoldable pub report_progress :
    Option String → String → String → Option String → Option String → M (TaskState × Bool)
unfolding owned owner_transition progress_state
report_progress current me message task_id state = do
  id ← target task_id current
  t ← owned me id
  let new_state = progress_state state t.status
  done ←
      owner_transition id new_state (str message) (progress_type new_state)
        (some (progress_body new_state message))
  pure (new_state, done)

pub data Submitted : Type 0 where
  already_closed recorded delivered : Submitted

abbrev pub is_current : Option String → String → Bool
is_current none id = false
is_current (some current) id = current == id

-- Inside a run the result is kept as a draft, which the daemon sends when the process ends.
abbrev pub hand_in : Bool → String → Fields → List ArtifactRef → M Submitted
hand_in true id body refs = do
  transaction (λ now l.
      update_task now id owner
        (record {
          status = none;
          force = false;
          announce = none;
          columns =
              set_result_draft (some (put body "artifacts" (arr (items (map ref_to_dict refs)))))
              ∷ [];
        })
        l)
  pure recorded
hand_in false id body refs = do finish id body refs; pure delivered

unfoldable pub submit_result :
    Option String
    → String
    → String
    → String
    → Option String
    → ResultOptions
    → List Json
    → M Submitted
unfolding owned finish result_body
submit_result current me status summary task_id options artifacts = do
  id ← target task_id current
  t ← owned me id
  if is_terminal t.status then pure already_closed else (do
    body ← lift (result_body status summary options)
    refs ← lift (refs_from (items artifacts))
    hand_in (is_current current id) id body refs)

unfoldable pub ask_question : String → String → String → M Sent
unfolding reply
ask_question me task_id question =
    reply me task_id MessageType.question (field "question" (str question) end) []

unfoldable pub answer : String → String → String → M Sent
unfolding reply
answer me task_id text = reply me task_id MessageType.answer (field "answer" (str text) end) []

abbrev reason_body : String → Fields
reason_body reason = if reason == "" then end else field "reason" (str reason) end

abbrev pub requested : Option Task → M Task
requested none = raise key_error
requested (some t) = pure t

unfoldable pub cancel_task : String → String → String → M Sent
unfolding reply
cancel_task me task_id reason = do
  found ← gets (λ (s : State). task task_id requester s.ledger)
  requested found
  s ← reply me task_id MessageType.cancel (reason_body reason) []
  transaction (λ now l.
      update_task now task_id requester
        (record { status = some TaskState.cancelled; force = false; announce = none; columns = [] })
        l)
  pure s
