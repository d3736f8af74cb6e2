-- ===== src/Protocol/RoundTrip.antt =====
-- The JSON form of an envelope, written and read (src/mutmuas/protocol.py: to_dict, from_dict).
use mutmuas.Prelude.{
  String, ◌≡◌, refl, true, false, Option, none, some, List, [], ◌∷◌, map, arith, ◌==◌,
}
use mutmuas.Result.{ok}
use mutmuas.Json.{
  Json, null, str, arr, obj, Items, nil, cons, Fields, end, field, or_else, is_blank, items, truthy,
}
use mutmuas.Protocol.Types.{MessageType, message_type, type_text}
use mutmuas.Protocol.Envelope.{ArtifactRef, Envelope, validate, check_protocol}
use mutmuas.Protocol.Codec.{
  Fresh, ref_from_dict, ref_to_dict, refs_from, to_dict, from_dict, text_field, json_of,
  optional_text,
}

-- A blank field holds its default.
abbrev pub IsDefault : Json → Json → Type 0
IsDefault default v = is_blank v ≡ true → v ≡ default

pub record IsNormalRef (a : ArtifactRef) : Type 0 where
  pub uri : (a.uri == "") ≡ false
  pub id : IsDefault (str "") a.id
  pub size : IsDefault null a.size
  pub sha256 : IsDefault null a.sha256
  pub media_type : IsDefault null a.media_type
  pub description : IsDefault (str "") a.description

ref_from_dict-ref_to_dict : (a : ArtifactRef) → IsNormalRef a → ref_from_dict (ref_to_dict a) ≡ ok a
unfolding ref_from_dict ref_to_dict text_field
ref_from_dict-ref_to_dict a h = ground arith

abbrev pub AreNormalRefs : List ArtifactRef → Type 0
AreNormalRefs [] = Unit
AreNormalRefs (a ∷ l) = IsNormalRef a × AreNormalRefs l

refs_from-items :
    (l : List ArtifactRef) → AreNormalRefs l → refs_from (items (map ref_to_dict l)) ≡ ok l
unfolding refs_from
refs_from-items [] h = refl
refs_from-items (a ∷ l) h = rw (ref_from_dict-ref_to_dict a h.0, refs_from-items l h.1)

message_type-type_text : (t : MessageType) → message_type (type_text t) ≡ some t
unfolding message_type
message_type-type_text MessageType.request = refl
message_type-type_text _ = refl

or_else-obj : (b : Fields) → or_else (obj b) (obj end) ≡ obj b
or_else-obj end = refl
or_else-obj (field _ _ _) = refl

or_else-arr : (xs : Items) → or_else (arr xs) (arr nil) ≡ arr xs
or_else-arr nil = refl
or_else-arr (cons _ _) = refl

optional_text-json_of : (o : Option String) → optional_text (json_of o) ≡ ok o
optional_text-json_of none = refl
optional_text-json_of (some s) = refl

type_text-nonempty : (t : MessageType) → (type_text t == "") ≡ false
type_text-nonempty MessageType.request = refl
type_text-nonempty _ = refl

protocol_of_valid : (e : Envelope) → validate e ≡ ok e → check_protocol e.protocol ≡ ok tt
unfolding validate
protocol_of_valid e v = ground arith

-- What the constructors of the program give every envelope that they build.
pub record IsFilled (e : Envelope) : Type 0 where
  pub message_id : (e.message_id == "") ≡ false
  pub sender : (e.sender == "") ≡ false
  pub to : (e.to == "") ≡ false
  pub conversation_id : (e.conversation_id == "") ≡ false
  pub timestamp : truthy e.timestamp ≡ true
  pub priority : truthy e.priority ≡ true
  pub protocol : truthy e.protocol ≡ true
  pub artifacts : AreNormalRefs e.artifacts

-- A valid envelope whose fields are filled is read back from its JSON form as it was.
pub from_dict-to_dict :
    (fresh : Fresh) (e : Envelope)
    → IsFilled e
    → validate e ≡ ok e
    → from_dict fresh (to_dict e) ≡ ok e
unfolding from_dict to_dict text_field
from_dict-to_dict fresh e f v =
    rw (f.message_id, f.sender, f.to, type_text-nonempty e.type, or_else-obj e.body)
      (rw
        (or_else-arr (items (map ref_to_dict e.artifacts)), refs_from-items e.artifacts f.artifacts)
        (rw
          (optional_text-json_of e.task_id, f.conversation_id, f.protocol, f.timestamp, f.priority)
          (rw (protocol_of_valid e v, message_type-type_text e.type) v)))
