-- ===== src/Ledger/Inbox.antt =====
-- The inbox (src/mutmuas/ledger.py: ingest, unhandled, request_envelope, mark_handled, unseen,
-- mark_seen, unseen_count, count).
use mutmuas.Prelude.{
  none, some, ◌||◌, ℕ, String, Bool, true, not, ◌&&◌, Option, List, [], ◌∷◌, ◌++◌, map, any, select,
  take, length, update_where, ltb, ◌==◌, if◌then◌else◌,
}
use mutmuas.Result.{Result, ok, err, key_error}
use mutmuas.Protocol.Types.{MessageType}
use mutmuas.Protocol.Envelope.{Envelope}
use mutmuas.Ledger.Rows.{
  Direction, message_state_text, inbound, outbound, Message, MessageState, Ledger, has_message_key,
  is_direction, is_new, is_handled, is_about, same_type,
}
use mutmuas.Ledger.Insert.{insert_message, incoming_row}

-- `ingest`: whether the message was seen for the first time.
unfoldable pub ingest : ℕ → Envelope → Ledger → Ledger × Bool
unfolding insert_message
ingest now env l = insert_message (incoming_row now env l) l

abbrev pub is_unhandled : String → Message → Bool
is_unhandled local_agent m =
    is_direction m.direction inbound && (is_new m.state && m.local_agent == local_agent)

unfoldable pub unhandled : String → Ledger → List Envelope
unhandled local_agent l =
    map (λ (m : Message). m.envelope) (select (is_unhandled local_agent) l.messages)

-- ORDER BY direction='in' DESC, rowid LIMIT 1
abbrev first_request : List Message → Result Envelope
first_request [] = err key_error
first_request (m ∷ _) = ok m.envelope

abbrev pub is_request_of : String → Message → Bool
is_request_of id m = is_about id m && same_type m.type MessageType.request

unfoldable pub request_envelope : String → Ledger → Result Envelope
request_envelope id l =
    let rows = select (is_request_of id) l.messages in
    first_request (
      select (λ (m : Message). is_direction m.direction inbound) rows
      ++ select (λ (m : Message). is_direction m.direction outbound) rows)

unfoldable pub mark_handled : ℕ → String → MessageState → Option String → Ledger → Ledger
mark_handled now id state error l = record l {
  messages =
      update_where (has_message_key id inbound)
        (λ (m : Message). record m { state = state; last_error = error; updated_at = now })
        l.messages;
}

-- `since`: a rowid if it is all digits, else a time.
pub data Since : Type 0 where
  always : Since
  after_row : ℕ → Since
  after_time : ℕ → Since

abbrev pub is_since : Since → Message → Bool
is_since always m = true
is_since (after_row n) m = ltb n m.rowid
is_since (after_time t) m = ltb t m.created_at

-- type IN (...); no filter for an empty tuple
abbrev pub is_one_of : List MessageType → MessageType → Bool
is_one_of [] t = true
is_one_of (u ∷ us) t = any (same_type t) (u ∷ us)

-- direction='in' AND seen=0 AND state='handled' AND local_agent=? AND ...
abbrev pub is_unseen : String → List MessageType → Since → Message → Bool
is_unseen local_agent types since m =
    is_direction m.direction inbound
    && (not m.seen
        && (is_handled m.state
            && (m.local_agent == local_agent && (is_one_of types m.type && is_since since m))))

-- UPDATE messages SET seen=1 for each of the ids
abbrev pub mark_all_seen : List String → List Message → List Message
mark_all_seen [] rows = rows
mark_all_seen (id ∷ ids) rows =
    mark_all_seen ids
      (update_where (has_message_key id inbound) (λ (m : Message). record m { seen = true }) rows)

unfoldable pub unseen :
    String → ℕ → Bool → List MessageType → Since → Ledger → Ledger × List Envelope
unseen local_agent limit mark types since l =
    let rows = take limit (select (is_unseen local_agent types since) l.messages) in
    (
      (if mark
          then record l {
            messages = mark_all_seen (map (λ (m : Message). m.message_id) rows) l.messages;
          }
          else l),
      map (λ (m : Message). m.envelope) rows,
    )

unfoldable pub mark_seen : String → Ledger → Ledger
mark_seen task_id l = record l {
  messages =
      update_where (λ (m : Message). is_direction m.direction inbound && is_about task_id m)
        (λ (m : Message). record m { seen = true }) l.messages;
}

unfoldable pub unseen_count : String → List MessageType → Since → Ledger → ℕ
unseen_count local_agent types since l =
    length (select (is_unseen local_agent types since) l.messages)

abbrev is_in_state : MessageState → Message → Bool
is_in_state state m = message_state_text m.state == message_state_text state

-- `count`; an empty agent is no filter.
unfoldable pub count : Direction → MessageState → Option String → Ledger → ℕ
count direction state local_agent l = length (
    select
      (λ (m : Message).
        is_direction m.direction direction
        && (is_in_state state m
            && elim local_agent [ none ↦ true | some a ↦ a == "" || m.local_agent == a ]))
      l.messages)
