-- ===== src/Node/Acknowledged.antt =====
-- What the receiver acknowledges (src/mutmuas/node.py: _receive_one).
use mutmuas.Json.{Json}
use mutmuas.Protocol.Envelope.{Envelope}
use mutmuas.Protocol.Codec.{Fresh}
use mutmuas.Ledger.Inbox
use mutmuas.Hub.State.{State}

-- What the next `new_conversation_id()` and `now_iso()` return.
abbrev pub next_fresh : State → Fresh
next_fresh s = record {
  conversation_id = s.world.new_conversation_id s.asked;
  now = s.world.iso_time s.asked;
}
