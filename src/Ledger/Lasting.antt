-- ===== src/Ledger/Lasting.antt =====
-- What lasts along the steps of the ledger (src/mutmuas/ledger.py): that there is a row which passes a
-- test, for a test that every operation respects.
use mutmuas.Prelude.{
  ℕ, suc, String, ◌≡◌, refl, ◌∙◌, Bool, true, ◌&&◌, Option, none, some, List, [], ◌∷◌, map, arith,
  any, update_where, any-append, any-update_where, clip, Bool-cases, inl, inr, take, select,
}
use mutmuas.Result.{ok}
use mutmuas.Protocol.Types.{TaskState}
use mutmuas.Protocol.Envelope.{Envelope}
use mutmuas.Ledger.Rows.{
  inbound, outbound, owner, sent, Message, MessageState, Ledger, has_message_key, is_direction,
  is_about, is_settled,
}
use mutmuas.Ledger.Insert.{insert_message, outgoing_row, incoming_row}
use mutmuas.Ledger.Outbox.{queue, mark_sent, mark_send_error}
use mutmuas.Ledger.Inbox.{ingest, mark_handled, mark_all_seen, unseen, mark_seen, is_unseen}
use mutmuas.Ledger.Tasks.{create_owned_task, bump_attempts, queue_given, write_task}
use mutmuas.Ledger.Delivery.{messages-queue, messages-insert_task}
use mutmuas.Ledger.Transitions.{update_task_cases}
use mutmuas.Ledger.History.{
  Local, queues, fails, ingests, handles, reads, hides, creates, updates, bumps, Step, local, sends,
  Reach, here, next,
}

abbrev pub with_error : ℕ → Option String → ℕ → Message → Message
with_error n e now m = record m { attempts = n; last_error = e; updated_at = now }

abbrev pub with_state : MessageState → Option String → ℕ → Message → Message
with_state s e now m = record m { state = s; last_error = e; updated_at = now }

abbrev pub as_sent : ℕ → Message → Message
as_sent now m = record m {
  state = sent;
  attempts = suc m.attempts;
  last_error = none;
  updated_at = now;
}

-- A test that the changes of a row respect, each on the rows that it is made to.
pub record IsLasting (q : Message → Bool) : Type 0 where
  pub tried : (m : Message) (n : ℕ) (e : Option String) (now : ℕ) → q (with_error n e now m) ≡ q m
  pub read : (m : Message) (b : Bool) → q (record m { seen = b }) ≡ q m
  pub settles :
      (m : Message) (i : String) (s : MessageState) (e : Option String) (now : ℕ)
      → is_settled s ≡ true
      → has_message_key i inbound m ≡ true
      → q m ≡ true
      → q (with_state s e now m) ≡ true
  pub leaves :
      (m : Message) (i : String) (now : ℕ)
      → has_message_key i outbound m ≡ true
      → q m ≡ true
      → q (as_sent now m) ≡ true

-- An update under which the rows that pass the test still pass it.
any-update_where_kept :
    (p q : Message → Bool) (f : Message → Message) (ms : List Message)
    → ((m : Message) → p m ≡ true → q m ≡ true → q (f m) ≡ true)
    → any q ms ≡ true
    → any q (update_where p f ms) ≡ true
any-update_where_kept p q f [] h k = k
any-update_where_kept p q f (m ∷ ms) h k = ground (arith, h m, any-update_where_kept p q f ms h)

module _ (q : Message → Bool) (lasting : IsLasting q) where
  abbrev Holds : Ledger → Type 0
  Holds l = any q l.messages ≡ true

  insert-Holds : (m : Message) (l : Ledger) → Holds l → Holds (insert_message m l).0
  unfolding insert_message
  insert-Holds m l h = ground (arith, any-append q l.messages (m ∷ []))

  queue-Holds :
      (now : ℕ) (env : Envelope) (l l' : Ledger) → queue now env l ≡ ok l' → Holds l → Holds l'
  queue-Holds now env l l' h k =
      rw (messages-queue now env l l' h) (insert-Holds (outgoing_row now env l) l k)

  queue_given-Holds :
      (now : ℕ) (o : Option Envelope) (l l' : Ledger)
      → queue_given now o l ≡ ok l'
      → Holds l
      → Holds l'
  queue_given-Holds now none l l' h k = ground arith
  queue_given-Holds now (some env) l l' h k = queue-Holds now env l l' h k

  mark_all_seen-any :
      (ids : List String) (ms : List Message) → any q (mark_all_seen ids ms) ≡ any q ms
  mark_all_seen-any [] ms = refl
  mark_all_seen-any (i ∷ ids) ms =
      mark_all_seen-any ids
        (update_where (has_message_key i inbound) (λ (m : Message). record m { seen = true }) ms)
      ∙ any-update_where (has_message_key i inbound) q (λ (m : Message). record m { seen = true })
          ms (λ m. lasting.read m true)

  Local-Holds : {l l' : Ledger} → Local l l' → Holds l → Holds l'
  Local-Holds {l} {l'} (queues now env h) k = queue-Holds now env l l' h k
  Local-Holds {l} {l'} (fails now i e h) k = rw (← h) (
      unfold mark_send_error in
      any-update_where (has_message_key i outbound) q
        (λ (m : Message). with_error (suc m.attempts) (some (clip 500 e)) now m) l.messages
        (λ m. lasting.tried m (suc m.attempts) (some (clip 500 e)) now)
      ∙ k)
  Local-Holds {l} {l'} (ingests now env h) k =
      rw (← h) (unfold ingest in insert-Holds (incoming_row now env l) l k)
  Local-Holds {l} {l'} (handles now i s e settled h) k = rw (← h) (
      unfold mark_handled in
      any-update_where_kept (has_message_key i inbound) q (with_state s e now) l.messages
        (λ m. lasting.settles m i s e now settled) k)
  Local-Holds {l} {l'} (reads a limit mark types since h) k = rw (← h) (
      unfold unseen in
      elim (Bool-cases mark) [
        | inl marking ↦ rw marking (
            mark_all_seen-any
              (map (λ (m : Message). m.message_id)
                (take limit (select (is_unseen a types since) l.messages)))
              l.messages
            ∙ k)
        | inr peeking ↦ rw peeking k
      ])
  Local-Holds {l} {l'} (hides i h) k = rw (← h) (
      unfold mark_seen in
      any-update_where (λ (m : Message). is_direction m.direction inbound && is_about i m) q
        (λ (m : Message). record m { seen = true }) l.messages (λ m. lasting.read m true)
      ∙ k)
  Local-Holds {l} {l'} (creates now req b h) k =
      unfold create_owned_task in
      rw (messages-insert_task now req owner req.to TaskState.pending l (l', b) h) k
  Local-Holds {l} {l'} (updates now i r c b free h) k =
      elim (update_task_cases now i r c l l' b h) [
        | inl (_, same, _) ↦ rw same k
        | inr (_, _, queued) ↦
            queue_given-Holds now c.announce (write_task now i r c.status c.columns l) l' queued k
      ]
  Local-Holds {l} {l'} (bumps now i n h) k = unfold bump_attempts in ground arith

  Step-Holds : {l l' : Ledger} → Step l l' → Holds l → Holds l'
  Step-Holds (local step) k = Local-Holds step k
  Step-Holds {l} (sends now i h) k = rw (← h) (
      unfold mark_sent in
      any-update_where_kept (has_message_key i outbound) q (as_sent now) l.messages
        (λ m. lasting.leaves m i now) k)

  pub Reach-lasts :
      {l l' : Ledger} → Reach l l' → any q l.messages ≡ true → any q l'.messages ≡ true
  Reach-lasts here k = k
  Reach-lasts (next r step) k = Step-Holds step (Reach-lasts r k)
