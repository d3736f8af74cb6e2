-- ===== src/Ledger/Rows.antt =====
-- The tables `messages` and `tasks` (src/mutmuas/ledger.py, SCHEMA). No row is ever deleted. A
-- column that holds the JSON text of a value holds the value here; a time is in milliseconds.
use mutmuas.Prelude.{ℕ, String, Bool, true, false, ◌&&◌, Option, none, some, List, [], ◌==◌}
use mutmuas.Json.{Json, Fields}
use mutmuas.Protocol.Types.{MessageType, TaskState, type_text}
use mutmuas.Protocol.Envelope.{ArtifactRef, Envelope}

pub data Direction : Type 0 where
  inbound outbound : Direction

pub data MessageState : Type 0 where
  queued sent new handled rejected dropped : MessageState

pub data Role : Type 0 where
  requester owner : Role

pub record Message : Type 0 where
  pub rowid : ℕ
  pub message_id : String
  pub direction : Direction
  pub local_agent : String
  pub peer : String
  pub type : MessageType
  pub task_id : Option String
  pub conversation_id : String
  pub envelope : Envelope
  pub state : MessageState
  pub seen : Bool
  pub attempts : ℕ
  pub last_error : Option String
  pub created_at : ℕ
  pub updated_at : ℕ

pub record Task : Type 0 where
  pub task_id : String
  pub role : Role
  pub local_agent : String
  pub requester : String
  pub owner : String
  pub parent_task : Json
  pub conversation_id : String
  pub status : TaskState
  pub result_status : Option String
  pub request : Fields
  pub result : Option Fields
  pub result_draft : Option Fields
  pub input_refs : List ArtifactRef
  pub output_refs : List ArtifactRef
  pub last_message : Option String
  pub attempts : ℕ
  pub created_at : ℕ
  pub updated_at : ℕ

pub record Ledger : Type 0 where
  pub messages : List Message
  pub tasks : List Task

abbrev pub empty : Ledger
empty = record { messages = []; tasks = [] }

abbrev pub is_direction : Direction → Direction → Bool
is_direction inbound inbound = true
is_direction outbound outbound = true
is_direction _ _ = false

abbrev pub is_role : Role → Role → Bool
is_role requester requester = true
is_role owner owner = true
is_role _ _ = false

abbrev pub message_state_text : MessageState → String
message_state_text queued = "queued"
message_state_text sent = "sent"
message_state_text new = "new"
message_state_text handled = "handled"
message_state_text rejected = "rejected"
message_state_text dropped = "dropped"

abbrev pub is_queued : MessageState → Bool
is_queued queued = true
is_queued _ = false

abbrev pub is_new : MessageState → Bool
is_new new = true
is_new _ = false

-- The states that a handler leaves a message in.
abbrev pub is_settled : MessageState → Bool
is_settled handled = true
is_settled rejected = true
is_settled dropped = true
is_settled _ = false

abbrev pub is_handled : MessageState → Bool
is_handled handled = true
is_handled _ = false

-- message_id=? AND direction=?, the primary key of `messages`
abbrev pub has_message_key : String → Direction → Message → Bool
has_message_key id d m = m.message_id == id && is_direction m.direction d

-- task_id=? AND role=?, the primary key of `tasks`
abbrev pub has_task_key : String → Role → Task → Bool
has_task_key id r t = t.task_id == id && is_role t.role r

-- task_id=? on the nullable column of `messages`
abbrev pub is_about : String → Message → Bool
is_about id m = elim m.task_id [ none ↦ false | some s ↦ s == id ]

abbrev pub same_type : MessageType → MessageType → Bool
same_type a b = type_text a == type_text b
