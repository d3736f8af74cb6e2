-- ===== src/Ledger/Outbox.antt =====
-- The outbox (src/mutmuas/ledger.py: queue_outgoing, _queue, outbox, mark_sent, mark_send_error).
use mutmuas.Prelude.{
  ℕ, suc, String, Bool, ◌&&◌, none, some, List, map, select, take, update_where, clip,
}
use mutmuas.Result.{Result, ok, ◌>>=◌}
use mutmuas.Protocol.Types.{MessageType, TaskState}
use mutmuas.Protocol.Envelope.{Envelope}
use mutmuas.Ledger.Rows.{
  outbound, Message, sent, requester, Ledger, has_message_key, is_direction, is_queued,
}
use mutmuas.Ledger.Insert.{insert_message, insert_task, outgoing_row}

-- The requester's row of a REQUEST; nothing for another type.
abbrev pub track : MessageType → ℕ → Envelope → Ledger → Result Ledger
track MessageType.request now env l = do
  (l', _) ← insert_task now env requester env.sender TaskState.pending l
  ok l'
track _ now env l = ok l

-- `_queue`, inside the transaction of its caller: an error leaves the ledger as it was.
unfoldable pub queue : ℕ → Envelope → Ledger → Result Ledger
unfolding insert_message insert_task
queue now env l = track env.type now env (insert_message (outgoing_row now env l) l).0

abbrev pub is_waiting : Message → Bool
is_waiting m = is_direction m.direction outbound && is_queued m.state

-- `outbox(limit)`: what waits to be published, oldest first.
unfoldable pub outbox : ℕ → Ledger → List Envelope
outbox limit l = map (λ (m : Message). m.envelope) (take limit (select is_waiting l.messages))

unfoldable pub mark_sent : ℕ → String → Ledger → Ledger
mark_sent now id l = record l {
  messages =
      update_where (has_message_key id outbound)
        (λ (m : Message). record m {
          state = sent;
          attempts = suc m.attempts;
          last_error = none;
          updated_at = now;
        })
        l.messages;
}

unfoldable pub mark_send_error : ℕ → String → String → Ledger → Ledger
mark_send_error now id error l = record l {
  messages =
      update_where (has_message_key id outbound)
        (λ (m : Message). record m {
          attempts = suc m.attempts;
          last_error = some (clip 500 error);
          updated_at = now;
        })
        l.messages;
}
