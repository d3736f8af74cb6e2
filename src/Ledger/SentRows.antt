-- ===== src/Ledger/SentRows.antt =====
-- The outgoing rows that are marked as sent, under each operation of src/mutmuas/ledger.py.
use mathlib.Core.Path.{◌≡◌}
use mutmuas.Prelude.{
  ℕ, String, refl, ◌∙◌, Bool, true, false, ◌⊎◌, ◌&&◌, Option, none, some, List, [], ◌∷◌, map, arith,
  any, update_where, if◌then◌else◌, any-append, eq_iff, any-update_where, suc, clip, take, select,
  Bool-cases, inl, inr,
}
use mutmuas.Result.{ok}
use mutmuas.Protocol.Types.{TaskState}
use mutmuas.Protocol.Envelope.{Envelope}
use mutmuas.Ledger.Rows.{
  Direction, inbound, outbound, owner, is_about, sent, Message, MessageState, Ledger,
  has_message_key, is_direction,
}
use mutmuas.Ledger.Insert.{insert_message, outgoing_row, incoming_row}
use mutmuas.Ledger.Outbox.{queue, mark_sent, mark_send_error}
use mutmuas.Ledger.Inbox.{ingest, mark_handled, mark_all_seen, unseen, mark_seen, is_unseen}
use mutmuas.Ledger.Tasks.{create_owned_task, bump_attempts, queue_given, write_task}
use mutmuas.Ledger.Delivery.{messages-queue, messages-insert_task}
use mutmuas.Ledger.Transitions.{update_task_cases}
use mutmuas.Ledger.History.{
  Local, queues, fails, ingests, handles, reads, hides, creates, updates, bumps,
}

abbrev pub is_sent : MessageState → Bool
is_sent sent = true
is_sent _ = false

abbrev is_sent_row : String → Message → Bool
is_sent_row id m = has_message_key id outbound m && is_sent m.state

-- Whether the outgoing message with the id is marked as sent.
abbrev pub is_marked : String → Ledger → Bool
is_marked id l = any (is_sent_row id) l.messages

pub Direction-cases : (d : Direction) → (d ≡ inbound) ⊎ (d ≡ outbound)
Direction-cases inbound = inl refl
Direction-cases outbound = inr refl

insert-is_marked :
    (m : Message) (id : String) (l : Ledger)
    → is_sent_row id m ≡ false
    → is_marked id (insert_message m l).0 ≡ is_marked id l
unfolding insert_message
insert-is_marked m id l h = ground (arith, any-append (is_sent_row id) l.messages (m ∷ []))

queue-is_marked :
    (now : ℕ) (env : Envelope) (id : String) (l l' : Ledger)
    → queue now env l ≡ ok l'
    → is_marked id l' ≡ is_marked id l
queue-is_marked now env id l l' h =
    rw (messages-queue now env l l' h)
      (insert-is_marked (outgoing_row now env l) id l (ground arith))

queue_given-is_marked :
    (now : ℕ) (o : Option Envelope) (id : String) (l l' : Ledger)
    → queue_given now o l ≡ ok l'
    → is_marked id l' ≡ is_marked id l
queue_given-is_marked now none id l l' h = ground arith
queue_given-is_marked now (some env) id l l' h = queue-is_marked now env id l l' h

-- A change to an inbound row.
handled_row :
    (id i : String) (s : MessageState) (e : Option String) (now : ℕ) (m : Message)
    → is_sent_row id (
        if has_message_key i inbound m
        then record m { state = s; last_error = e; updated_at = now }
        else m)
      ≡ is_sent_row id m
handled_row id i s e now m = elim (Direction-cases m.direction) [
  | inl d ↦ ground arith
  | inr d ↦ ground arith
]

handles-is_marked :
    (id i : String) (s : MessageState) (e : Option String) (now : ℕ) (ms : List Message)
    → any (is_sent_row id) (
        update_where
          (has_message_key i inbound)
          (λ (m : Message). record m { state = s; last_error = e; updated_at = now })
          ms)
      ≡ any (is_sent_row id) ms
handles-is_marked id i s e now [] = refl
handles-is_marked id i s e now (m ∷ ms) =
    rw (handled_row id i s e now m, handles-is_marked id i s e now ms) refl

mark_all_seen-is_marked :
    (ids : List String) (id : String) (ms : List Message)
    → any (is_sent_row id) (mark_all_seen ids ms) ≡ any (is_sent_row id) ms
mark_all_seen-is_marked [] id ms = refl
mark_all_seen-is_marked (i ∷ ids) id ms =
    mark_all_seen-is_marked ids id
      (update_where (has_message_key i inbound) (λ (m : Message). record m { seen = true }) ms)
    ∙ any-update_where (has_message_key i inbound) (is_sent_row id)
        (λ (m : Message). record m { seen = true }) ms (λ m. refl)

marks :
    (now : ℕ) (i id : String) (ms : List Message)
    → any (is_sent_row id) (
        update_where
          (has_message_key i outbound)
          (λ (m : Message). record m {
            state = sent;
            attempts = suc m.attempts;
            last_error = none;
            updated_at = now;
          })
          ms)
      ≡ true
    → (i ≡ id) ⊎ (any (is_sent_row id) ms ≡ true)
marks now i id [] h = inr h
marks now i id (m ∷ ms) h =
    ground (arith, marks now i id ms, eq_iff m.message_id i, eq_iff m.message_id id)

pub Local-is_marked : (id : String) {l l' : Ledger} → Local l l' → is_marked id l' ≡ is_marked id l
Local-is_marked id {l} {l'} (queues now env h) = queue-is_marked now env id l l' h
Local-is_marked id {l} {l'} (fails now i e h) = rw (← h) (
    unfold mark_send_error in
    any-update_where (has_message_key i outbound) (is_sent_row id)
      (λ (m : Message). record m {
        attempts = suc m.attempts;
        last_error = some (clip 500 e);
        updated_at = now;
      })
      l.messages (λ m. refl))
Local-is_marked id {l} {l'} (ingests now env h) =
    rw (← h) (unfold ingest in insert-is_marked (incoming_row now env l) id l (ground arith))
Local-is_marked id {l} {l'} (handles now i s e settled h) =
    rw (← h) (unfold mark_handled in handles-is_marked id i s e now l.messages)
Local-is_marked id {l} {l'} (reads a limit mark types since h) = rw (← h) (
    unfold unseen in
    elim (Bool-cases mark) [
      | inl marking ↦ rw marking (
          mark_all_seen-is_marked
            (map (λ (m : Message). m.message_id)
              (take limit (select (is_unseen a types since) l.messages)))
            id l.messages)
      | inr peeking ↦ rw peeking refl
    ])
Local-is_marked id {l} {l'} (hides i h) = rw (← h) (
    unfold mark_seen in
    any-update_where (λ (m : Message). is_direction m.direction inbound && is_about i m)
      (is_sent_row id) (λ (m : Message). record m { seen = true }) l.messages (λ m. refl))
Local-is_marked id {l} {l'} (creates now req b h) =
    unfold create_owned_task in
    rw (messages-insert_task now req owner req.to TaskState.pending l (l', b) h) refl
Local-is_marked id {l} {l'} (updates now i r c b free h) =
    elim (update_task_cases now i r c l l' b h) [
      | inl (_, same, _) ↦ rw same refl
      | inr (_, _, queued) ↦
          queue_given-is_marked now c.announce id (write_task now i r c.status c.columns l) l'
            queued
    ]
Local-is_marked id {l} {l'} (bumps now i n h) = unfold bump_attempts in ground arith

-- `mark_sent` marks the message that it names, and no other.
pub mark_sent-is_marked :
    (now : ℕ) (i id : String) (l : Ledger)
    → is_marked id (mark_sent now i l) ≡ true
    → (i ≡ id) ⊎ (is_marked id l ≡ true)
unfolding mark_sent
mark_sent-is_marked now i id l h = marks now i id l.messages h
