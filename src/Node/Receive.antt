-- ===== src/Node/Receive.antt =====
-- `_receive_one` and `_error_back` (src/mutmuas/node.py): a delivery from the mailbox, committed to
-- the ledger before it is acknowledged.
use mutmuas.Prelude.{String, Bool, true, not, ◌||◌, Option, none, some, [], ◌==◌, if◌then◌else◌}
use mutmuas.Result.{
  Code, Result, ok, err, protocol_error, invalid_message, unsupported_protocol, unknown_type,
  invalid_address,
}
use mutmuas.Exec.{◌>>=◌, ◌>>◌, gets, pure, raise, lift}
use mutmuas.Json.{Json, str, obj, Fields, end, field, get, text_of}
use mutmuas.Ids.{Address, parse, to_text}
use mutmuas.Bus.{sender_node_from_subject}
use mutmuas.Protocol.Types.{MessageType}
use mutmuas.Protocol.Envelope.{Envelope}
use mutmuas.Protocol.Codec.{Fresh, from_json, optional_text}
use mutmuas.Ledger.Inbox
use mutmuas.Hub.State.{State, M, ask, transaction}
use mutmuas.Hub.Sending.{new_envelope, send}

-- What the receiver tells the server about a delivery.
pub data Verdict : Type 0 where
  ack term : Verdict

abbrev pub code_text : Code → String
code_text invalid_message = "invalid_message"
code_text unsupported_protocol = "unsupported_protocol"
code_text unknown_type = "unknown_type"
code_text invalid_address = "invalid_address"

-- The object and the address that `_error_back` reads from the raw message, if it can.
abbrev pub sender_of : Option Json → Option (Fields × Address)
sender_of none = none
sender_of (some (obj d)) = elim (text_of (get d "from")) [
  | none ↦ none
  | some s ↦ elim (parse s) [ err _ ↦ none | ok a ↦ some (d, a) ]
]
sender_of (some _) = none

abbrev pub answer_error : String → Code → String → Option (Fields × Address) → M (Unit {0})
answer_error addr code text none = pure tt
answer_error addr code text (some (d, sender)) = do
  task_id ← lift (optional_text (get d "task_id"))
  env ← new_envelope (record {
    type = MessageType.error;
    sender = addr;
    to = to_text sender;
    body = field "code" (str (code_text code)) (field "message" (str text) end);
    task_id = task_id;
    conversation_id = none;
    artifacts = [];
    reply_to = get d "message_id";
    priority = "normal";
  })
  send env
  pure tt

unfoldable pub error_back : Option Json → String → Code → String → M (Unit {0})
unfolding send
error_back raw addr code text = answer_error addr code text (sender_of raw)

-- A message for another agent, or sent as another node than its subject says.
abbrev pub is_misrouted : String → String → Envelope → Bool
is_misrouted addr subject env = elim (parse env.sender) [
  | err _ ↦ true
  | ok a ↦ not (a.node == sender_node_from_subject subject) || not (env.to == addr)
]

abbrev pub ingest : Envelope → M Bool
ingest env = transaction (λ t l. ok (Inbox.ingest t env l))

abbrev pub accept : String → String → Envelope → M Verdict
accept addr subject env =
    if is_misrouted addr subject env then pure term else (do ingest env; pure ack)

-- The outcome of reading the message; only a `ProtocolError` is caught.
abbrev pub received : Option Json → String → String → Result Envelope → M Verdict
received raw addr subject (ok env) = accept addr subject env
received raw addr subject (err (protocol_error code)) = do
  k ← ask
  text ← gets (λ (s : State). s.world.error_text k)
  error_back raw addr code text
  pure term
received raw addr subject (err e) = raise e

abbrev pub fresh : M Fresh
fresh = do
  k ← ask
  gets (λ (s : State). record {
    conversation_id = s.world.new_conversation_id k;
    now = s.world.iso_time k;
  })

-- `_receive_one`: the raw message as JSON (none if it is not), and its subject.
unfoldable pub receive_one : String → String → Option Json → M Verdict
unfolding error_back
receive_one addr subject raw = do f ← fresh; received raw addr subject (from_json f raw)
