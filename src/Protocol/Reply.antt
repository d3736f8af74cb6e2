-- ===== src/Protocol/Reply.antt =====
-- `Envelope.reply`, `sender_addr` and `to_addr` (src/mutmuas/protocol.py).
use mutmuas.Prelude.{String, Option, none, some, List, ◌==◌, if◌then◌else◌}
use mutmuas.Result.{Result}
use mutmuas.Ids.{Address, parse}
use mutmuas.Json.{Fields, str}
use mutmuas.Protocol.Types.{MessageType}
use mutmuas.Protocol.Envelope.{ArtifactRef, Envelope, protocol_version}

unfoldable pub sender_addr : Envelope → Result Address
sender_addr e = parse e.sender

unfoldable pub to_addr : Envelope → Result Address
to_addr e = parse e.to

abbrev sender_or : Option String → String → String
sender_or none default = default
sender_or (some s) default = if s == "" then default else s

-- A message that answers another in its task and its conversation; the message id and the time are
-- new.
unfoldable pub reply :
    (message_id now : String)
    → Envelope
    → MessageType
    → Fields
    → List ArtifactRef
    → Option String
    → Envelope
reply message_id now original type body artifacts sender = record {
  type = type;
  sender = sender_or sender original.to;
  to = original.sender;
  body = body;
  task_id = original.task_id;
  conversation_id = original.conversation_id;
  message_id = message_id;
  timestamp = str now;
  priority = original.priority;
  artifacts = artifacts;
  reply_to = str original.message_id;
  protocol = str protocol_version;
}
