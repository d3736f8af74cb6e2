-- ===== src/Protocol/Codec.antt =====
-- The JSON form of references and envelopes (src/mutmuas/protocol.py: to_dict, from_dict, from_json).
use mutmuas.Prelude.{String, Option, none, some, List, [], ◌∷◌, map, ◌==◌, if◌then◌else◌}
use mutmuas.Result.{Result, ok, err, untyped, protocol_error, unknown_type, ◌>>=◌, ◌>>◌}
use mutmuas.Json.{
  Json, null, str, arr, obj, Items, nil, cons, Fields, end, field, get, get_or, or_else, is_blank,
  items,
}
use mutmuas.Protocol.Types.{message_type, type_text}
use mutmuas.Protocol.Envelope.{
  ArtifactRef, Envelope, protocol_version, malformed, check_protocol, validate,
}

-- What `new_conversation_id()` and `now_iso()` return where a field is missing.
pub record Fresh : Type 0 where
  pub conversation_id : String
  pub now : String

-- `isinstance(d.get(key), str)` and not empty
unfoldable pub text_field : Fields → String → Result String
text_field d key = elim (get d key) [
  | str s ↦ (if s == "" then err malformed else ok s)
  | _ ↦ err malformed
]

-- `ArtifactRef.from_dict`: the known keys that are there, the defaults for the others.
unfoldable pub ref_from_dict : Json → Result ArtifactRef
unfolding text_field
ref_from_dict (obj d) = do
  uri ← text_field d "uri"
  ok (record {
    uri = uri;
    id = get_or d "id" (str "");
    size = get d "size";
    sha256 = get d "sha256";
    media_type = get d "media_type";
    description = get_or d "description" (str "");
  })
ref_from_dict _ = err malformed

-- {k: v for k, v in asdict(self).items() if v not in (None, "")}, behind the fields given.
abbrev unless_blank : String → Json → Fields → Fields
unless_blank key v rest = if is_blank v then rest else field key v rest

unfoldable pub ref_to_dict : ArtifactRef → Json
ref_to_dict a = obj (
    unless_blank "uri" (str a.uri) (
      unless_blank "id" a.id (
        unless_blank "size" a.size (
          unless_blank "sha256" a.sha256 (
            unless_blank "media_type" a.media_type
              (unless_blank "description" a.description end))))))

unfoldable pub refs_from : Items → Result (List ArtifactRef)
unfolding ref_from_dict
refs_from nil = ok []
refs_from (cons x xs) = do a ← ref_from_dict x; rest ← refs_from xs; ok (a ∷ rest)

abbrev pub json_of : Option String → Json
json_of none = null
json_of (some s) = str s

-- A field that may be missing, of a text. A value of another type, which the code does not test
-- for, is outside the model.
abbrev pub optional_text : Json → Result (Option String)
optional_text null = ok none
optional_text (str s) = ok (some s)
optional_text _ = err untyped

abbrev pub defined_text : Json → Result String
defined_text (str s) = ok s
defined_text _ = err untyped

-- body must be an object, artifacts a list
abbrev object_of : Json → Result Fields
object_of (obj b) = ok b
object_of _ = err malformed

abbrev list_of : Json → Result Items
list_of (arr xs) = ok xs
list_of _ = err malformed

unfoldable pub to_dict : Envelope → Json
to_dict e = obj (
    field "protocol" e.protocol (
      field "message_id" (str e.message_id) (
        field "conversation_id" (str e.conversation_id) (
          field "task_id" (json_of e.task_id) (
            field "from" (str e.sender) (
              field "to" (str e.to) (
                field "type" (str (type_text e.type)) (
                  field "timestamp" e.timestamp (
                    field "priority" e.priority (
                      field "body" (obj e.body) (
                        field "artifacts" (arr (items (map ref_to_dict e.artifacts)))
                          (field "reply_to" e.reply_to end))))))))))))

unfoldable pub from_fields : Fresh → Fields → Result Envelope
unfolding text_field refs_from
from_fields fresh d = do
  message_id ← text_field d "message_id"
  sender ← text_field d "from"
  to ← text_field d "to"
  type_name ← text_field d "type"
  body ← object_of (or_else (get d "body") (obj end))
  xs ← list_of (or_else (get d "artifacts") (arr nil))
  artifacts ← refs_from xs
  task_id ← optional_text (get d "task_id")
  conversation_id ← defined_text (or_else (get d "conversation_id") (str fresh.conversation_id))
  let protocol = or_else (get d "protocol") (str protocol_version)
  check_protocol protocol
  type ← elim (message_type type_name) [ none ↦ err (protocol_error unknown_type) | some t ↦ ok t ]
  validate (record {
    type = type;
    sender = sender;
    to = to;
    body = body;
    task_id = task_id;
    conversation_id = conversation_id;
    message_id = message_id;
    timestamp = or_else (get d "timestamp") (str fresh.now);
    priority = or_else (get d "priority") (str "normal");
    artifacts = artifacts;
    reply_to = get d "reply_to";
    protocol = protocol;
  })

-- `Envelope.from_dict`
unfoldable pub from_dict : Fresh → Json → Result Envelope
unfolding from_fields
from_dict fresh (obj d) = from_fields fresh d
from_dict fresh _ = err malformed

-- `Envelope.from_json` on the outcome of `json.loads`: none for a text that is not JSON.
unfoldable pub from_json : Fresh → Option Json → Result Envelope
unfolding from_dict
from_json fresh none = err malformed
from_json fresh (some d) = from_dict fresh d
