-- ===== src/Protocol/Envelope.antt =====
-- `ArtifactRef`, `Envelope` and `Envelope.validate` (src/mutmuas/protocol.py).
use mutmuas.Prelude.{
  String, Bool, true, false, not, ◌&&◌, ◌||◌, Option, none, some, List, [], ◌∷◌, any, ◌==◌,
}
use mutmuas.Result.{
  Result, ok, err, protocol_error, attribute_error, type_error, Error, invalid_message,
  unsupported_protocol, invalid_address, raise_if, ◌>>◌,
}
use mutmuas.Json.{Json, null, bool, num, str, arr, obj, Fields, le_zero, get, get_or, is_blank}
use mutmuas.Ids.{parse}
use mutmuas.Bus.Split.{split}
use mutmuas.Protocol.Types.{
  MessageType, Kind, task_state, result_status, request_kind, required_body, needs_task,
}

-- A reference carries whatever JSON its optional fields were given.
pub record ArtifactRef : Type 0 where
  pub uri : String
  pub id : Json
  pub size : Json
  pub sha256 : Json
  pub media_type : Json
  pub description : Json

-- The fields that the code checks, or uses as keys, have their types; the others hold any JSON.
pub record Envelope : Type 0 where
  pub type : MessageType
  pub sender : String
  pub to : String
  pub body : Fields
  pub task_id : Option String
  pub conversation_id : String
  pub message_id : String
  pub timestamp : Json
  pub priority : Json
  pub artifacts : List ArtifactRef
  pub reply_to : Json
  pub protocol : Json

abbrev pub protocol_version : String
protocol_version = "mutmuas/1"

abbrev pub malformed : Error
malformed = protocol_error invalid_message

-- self.protocol.split("/")[0]
abbrev pub major : String → String
major s = elim (split b'/' s) [ [] ↦ "" | x ∷ _ ↦ x ]

unfoldable pub check_protocol : Json → Result (Unit {0})
unfolding split
check_protocol (str s) =
    raise_if (not (major s == major protocol_version)) (protocol_error unsupported_protocol)
check_protocol _ = err attribute_error

-- An `InvalidAddress` is passed on as a `ProtocolError`.
unfoldable pub check_address : String → Result (Unit {0})
check_address text = elim (parse text) [
  | ok _ ↦ ok tt
  | err _ ↦ err (protocol_error invalid_address)
]

-- priority not in PRIORITIES
abbrev pub is_priority : Json → Bool
is_priority (str s) = s == "low" || (s == "normal" || s == "high")
is_priority _ = false

-- not self.task_id
abbrev pub is_absent : Option String → Bool
is_absent none = true
is_absent (some s) = s == ""

-- The kind of a REQUEST. A list or an object cannot be looked up in a `dict`.
unfoldable pub check_kind : Json → Result Kind
check_kind (str s) = elim (request_kind s) [ none ↦ err malformed | some k ↦ ok k ]
check_kind (arr _) = err type_error
check_kind (obj _) = err type_error
check_kind _ = err malformed

-- `timeout is not None and (not isinstance(timeout, (int, float)) or timeout <= 0)`; a `bool` is
-- an `int`.
abbrev pub bad_timeout : Json → Bool
bad_timeout null = false
bad_timeout (num n) = le_zero n
bad_timeout (bool b) = not b
bad_timeout _ = true

-- body["status"] in RESULT_STATUSES
abbrev pub is_result_status : Json → Bool
is_result_status (str s) = elim (result_status s) [ none ↦ false | some _ ↦ true ]
is_result_status _ = false

-- state in (None, *TASK_STATES)
abbrev pub is_update_state : Json → Bool
is_update_state null = true
is_update_state (str s) = elim (task_state s) [ none ↦ false | some _ ↦ true ]
is_update_state _ = false

-- The fields that only one type has.
unfoldable pub check_body : MessageType → Fields → Result (Unit {0})
check_body MessageType.request body = do
  check_kind (get_or body "kind" (str "query"))
  raise_if (bad_timeout (get body "timeout_s")) malformed
check_body MessageType.result body = raise_if (not (is_result_status (get body "status"))) malformed
check_body MessageType.update body = raise_if (not (is_update_state (get body "state"))) malformed
check_body _ body = ok tt

-- `Envelope.validate`; that the type is known is tested in `from_dict`, where the text still stands.
unfoldable pub validate : Envelope → Result Envelope
validate e = do
  check_protocol e.protocol
  check_address e.sender
  check_address e.to
  raise_if (not (is_priority e.priority)) malformed
  raise_if (needs_task e.type && is_absent e.task_id) malformed
  raise_if (any (λ k. is_blank (get e.body k)) (required_body e.type)) malformed
  check_body e.type e.body
  ok e
