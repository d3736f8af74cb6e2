-- ===== src/Protocol/Types.antt =====
-- MESSAGE_TYPES, TASK_STATES, RESULT_STATUSES, REQUEST_KINDS and their spellings
-- (src/mutmuas/protocol.py), and PERMISSIONS (src/mutmuas/config.py).
use mutmuas.Prelude.{
  String, Bool, true, false, Option, none, some, List, [], ◌∷◌, ◌==◌, if◌then◌else◌,
}

pub data MessageType : Type 0 where
  request ack question answer update result blocked reject cancel error : MessageType

pub data TaskState : Type 0 where
  pending accepted running waiting blocked completed failed cancelled : TaskState

pub data ResultStatus : Type 0 where
  complete partial failed : ResultStatus

pub data Kind : Type 0 where
  query artifact experiment code : Kind

pub data Permission : Type 0 where
  read write_worktree run_experiment publish_artifact request_task merge admin : Permission

-- The member of a table of spellings that a text names.
abbrev named {ℓ} : {A : Type ℓ} → List (String × A) → String → Option A
named [] s = none
named ((t, a) ∷ rest) s = if s == t then some a else named rest s

abbrev message_types : List (String × MessageType)
message_types =
    ("REQUEST", MessageType.request)
    ∷ ("ACK", MessageType.ack)
    ∷ ("QUESTION", MessageType.question)
    ∷ ("ANSWER", MessageType.answer)
    ∷ ("UPDATE", MessageType.update)
    ∷ ("RESULT", MessageType.result)
    ∷ ("BLOCKED", MessageType.blocked)
    ∷ ("REJECT", MessageType.reject)
    ∷ ("CANCEL", MessageType.cancel)
    ∷ ("ERROR", MessageType.error)
    ∷ []

unfoldable pub message_type : String → Option MessageType
message_type = named message_types

abbrev pub type_text : MessageType → String
type_text MessageType.request = "REQUEST"
type_text MessageType.ack = "ACK"
type_text MessageType.question = "QUESTION"
type_text MessageType.answer = "ANSWER"
type_text MessageType.update = "UPDATE"
type_text MessageType.result = "RESULT"
type_text MessageType.blocked = "BLOCKED"
type_text MessageType.reject = "REJECT"
type_text MessageType.cancel = "CANCEL"
type_text MessageType.error = "ERROR"

abbrev task_states : List (String × TaskState)
task_states =
    ("PENDING", TaskState.pending)
    ∷ ("ACCEPTED", TaskState.accepted)
    ∷ ("RUNNING", TaskState.running)
    ∷ ("WAITING", TaskState.waiting)
    ∷ ("BLOCKED", TaskState.blocked)
    ∷ ("COMPLETED", TaskState.completed)
    ∷ ("FAILED", TaskState.failed)
    ∷ ("CANCELLED", TaskState.cancelled)
    ∷ []

unfoldable pub task_state : String → Option TaskState
task_state = named task_states

abbrev pub state_text : TaskState → String
state_text TaskState.pending = "PENDING"
state_text TaskState.accepted = "ACCEPTED"
state_text TaskState.running = "RUNNING"
state_text TaskState.waiting = "WAITING"
state_text TaskState.blocked = "BLOCKED"
state_text TaskState.completed = "COMPLETED"
state_text TaskState.failed = "FAILED"
state_text TaskState.cancelled = "CANCELLED"

-- status in TERMINAL_STATES
abbrev pub is_terminal : TaskState → Bool
is_terminal TaskState.completed = true
is_terminal TaskState.failed = true
is_terminal TaskState.cancelled = true
is_terminal _ = false

abbrev result_statuses : List (String × ResultStatus)
result_statuses =
    ("complete", ResultStatus.complete)
    ∷ ("partial", ResultStatus.partial)
    ∷ ("failed", ResultStatus.failed)
    ∷ []

unfoldable pub result_status : String → Option ResultStatus
result_status = named result_statuses

abbrev pub status_text : ResultStatus → String
status_text ResultStatus.complete = "complete"
status_text ResultStatus.partial = "partial"
status_text ResultStatus.failed = "failed"

abbrev request_kinds : List (String × Kind)
request_kinds =
    ("query", Kind.query)
    ∷ ("artifact", Kind.artifact)
    ∷ ("experiment", Kind.experiment)
    ∷ ("code", Kind.code)
    ∷ []

unfoldable pub request_kind : String → Option Kind
request_kind = named request_kinds

-- REQUEST_KINDS[kind]: the permission that the owner must hold.
unfoldable pub needed_permission : Kind → Permission
needed_permission Kind.query = Permission.read
needed_permission Kind.artifact = Permission.publish_artifact
needed_permission Kind.experiment = Permission.run_experiment
needed_permission Kind.code = Permission.write_worktree

-- _REQUIRED_BODY
abbrev pub required_body : MessageType → List String
required_body MessageType.request = "objective" ∷ "reason" ∷ []
required_body MessageType.ack = []
required_body MessageType.question = "question" ∷ []
required_body MessageType.answer = "answer" ∷ []
required_body MessageType.update = "message" ∷ []
required_body MessageType.result = "status" ∷ "summary" ∷ []
required_body MessageType.blocked = "reason" ∷ []
required_body MessageType.reject = "reason" ∷ []
required_body MessageType.cancel = []
required_body MessageType.error = "code" ∷ "message" ∷ []

-- type in _NEEDS_TASK
abbrev pub needs_task : MessageType → Bool
needs_task MessageType.request = false
needs_task MessageType.error = false
needs_task _ = true

-- `task_state_for_result`: FAILED for "failed", COMPLETED for any other status.
unfoldable pub task_state_for_result : ResultStatus → TaskState
task_state_for_result ResultStatus.failed = TaskState.failed
task_state_for_result _ = TaskState.completed
