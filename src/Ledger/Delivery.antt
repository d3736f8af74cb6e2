-- ===== src/Ledger/Delivery.antt =====
-- The outbox and the inbox under insertions and marks (src/mutmuas/ledger.py: _queue, ingest,
-- mark_sent, mark_send_error).
use mathlib.Core.List.{map-append}
use mutmuas.Prelude.{
  ℕ, suc, String, ◌≡◌, refl, ◌∙◌, Bool, true, false, not, ◌&&◌, none, some, List, [], ◌∷◌, ◌++◌,
  map, any, select, update_where, arith, ◌==◌, eq_refl, Bool-cases, inl, inr, any-append,
  select-append, clip,
}
use mutmuas.Result.{ok, >>=-eq-ok}
use mutmuas.Protocol.Types.{MessageType, TaskState}
use mutmuas.Protocol.Envelope.{Envelope}
use mutmuas.Ledger.Rows.{
  Direction, inbound, outbound, Message, Role, requester, sent, Ledger, has_message_key,
}
use mutmuas.Ledger.Insert.{insert_message, insert_task, outgoing_row, incoming_row}
use mutmuas.Ledger.Outbox.{queue, track, is_waiting, mark_sent, mark_send_error}
use mutmuas.Ledger.Inbox.{ingest}

-- Whether a message with the id has been stored.
abbrev pub is_stored : String → Direction → Ledger → Bool
is_stored id d l = any (has_message_key id d) l.messages

-- Every envelope that waits to be published, oldest first: the outbox without its limit.
abbrev pub waiting : Ledger → List Envelope
waiting l = map (λ (m : Message). m.envelope) (select is_waiting l.messages)

own_key : (m : Message) → has_message_key m.message_id m.direction m ≡ true
own_key m = rw (eq_refl m.message_id) (ground arith)

pub insert_message-stores :
    (m : Message) (l : Ledger) → is_stored m.message_id m.direction (insert_message m l).0 ≡ true
unfolding insert_message
insert_message-stores m l = elim (Bool-cases (is_stored m.message_id m.direction l)) [
  | inl old ↦ rw old old
  | inr new ↦ rw new (
      any-append (has_message_key m.message_id m.direction) l.messages (m ∷ [])
      ∙ rw (new, own_key m))
]

-- A message is taken once: the first delivery stores it and says so, any later one changes nothing.
pub ingest_again :
    (now later : ℕ) (env : Envelope) (l : Ledger)
    → ((ingest now env l).1 ≡ not (is_stored env.message_id inbound l))
      × (ingest later env (ingest now env l).0 ≡ ((ingest now env l).0, false))
unfolding ingest
ingest_again now later env l = (
  unfold insert_message in ground arith,
  let stored = insert_message-stores (incoming_row now env l) l in
      unfold insert_message in ground (arith, stored),
)

pub messages-insert_task :
    (now : ℕ) (req : Envelope) (r : Role) (a : String) (s : TaskState) (l : Ledger)
    (p : Ledger × Bool)
    → insert_task now req r a s l ≡ ok p
    → p.0.messages ≡ l.messages
unfolding insert_task
messages-insert_task now req r a s l p h = ground arith

messages-track :
    (t : MessageType) (now : ℕ) (env : Envelope) (l l' : Ledger)
    → track t now env l ≡ ok l'
    → l'.messages ≡ l.messages
messages-track MessageType.request now env l l' h =
    let (p, inserted, same) =
      >>=-eq-ok (insert_task now env requester env.sender TaskState.pending l) _ h in
    let last : p.0 ≡ l' = cc in
    rw (← last) (messages-insert_task now env requester env.sender TaskState.pending l p inserted)
messages-track _ now env l l' h = cc

-- Queueing changes the messages by the insertion of the outgoing row, and by nothing else.
pub messages-queue :
    (now : ℕ) (env : Envelope) (l l' : Ledger)
    → queue now env l ≡ ok l'
    → l'.messages ≡ (insert_message (outgoing_row now env l) l).0.messages
unfolding queue
messages-queue now env l l' h =
    messages-track env.type now env (insert_message (outgoing_row now env l) l).0 l' h

-- A message with a new id waits behind those that were queued before, and they keep their order.
pub waiting-queue :
    (now : ℕ) (env : Envelope) (l l' : Ledger)
    → is_stored env.message_id outbound l ≡ false
    → queue now env l ≡ ok l'
    → waiting l' ≡ waiting l ++ env ∷ []
waiting-queue now env l l' new h = rw (messages-queue now env l l' h) (
    unfold insert_message in
    rw new (
      rw (select-append is_waiting l.messages (outgoing_row now env l ∷ [])) (
        map-append (λ (m : Message). m.envelope) (select is_waiting l.messages)
          (outgoing_row now env l ∷ []))))

select-mark_sent :
    (now : ℕ) (id : String) (ms : List Message)
    → map
        (λ (m : Message). m.envelope)
        (select is_waiting (
          update_where
            (has_message_key id outbound)
            (λ (m : Message). record m {
              state = sent;
              attempts = suc m.attempts;
              last_error = none;
              updated_at = now;
            })
            ms))
      ≡ map
          (λ (m : Message). m.envelope)
          (select (λ (m : Message). is_waiting m && not (m.message_id == id)) ms)
select-mark_sent now id [] = refl
select-mark_sent now id (m ∷ ms) = ground (arith, select-mark_sent now id ms)

-- Marking a message as sent takes it, and no other, out of the outbox.
pub waiting-mark_sent :
    (now : ℕ) (id : String) (l : Ledger)
    → waiting (mark_sent now id l)
      ≡ map
          (λ (m : Message). m.envelope)
          (select (λ (m : Message). is_waiting m && not (m.message_id == id)) l.messages)
unfolding mark_sent
waiting-mark_sent now id l = select-mark_sent now id l.messages

select-mark_send_error :
    (now : ℕ) (id error : String) (ms : List Message)
    → map
        (λ (m : Message). m.envelope)
        (select is_waiting (
          update_where
            (has_message_key id outbound)
            (λ (m : Message). record m {
              attempts = suc m.attempts;
              last_error = some (clip 500 error);
              updated_at = now;
            })
            ms))
      ≡ map (λ (m : Message). m.envelope) (select is_waiting ms)
select-mark_send_error now id error [] = refl
select-mark_send_error now id error (m ∷ ms) =
    ground (arith, select-mark_send_error now id error ms)

-- A failed attempt keeps the outbox as it was.
pub waiting-mark_send_error :
    (now : ℕ) (id error : String) (l : Ledger)
    → waiting (mark_send_error now id error l) ≡ waiting l
unfolding mark_send_error
waiting-mark_send_error now id error l = select-mark_send_error now id error l.messages
