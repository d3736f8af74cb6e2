-- ===== src/Ledger/Outlet.antt =====
-- The rows of outgoing messages along the steps of the ledger (src/mutmuas/ledger.py).
use mutmuas.Prelude.{
  String, ◌≡◌, refl, ◌∙◌, Bool, true, ◌⊎◌, ◌&&◌, ◌||◌, List, [], ◌∷◌, arith, any, inl, inr,
}
use mutmuas.Ledger.Rows.{outbound, Message, Ledger, has_message_key, is_queued}
use mutmuas.Ledger.History.{Reach}
use mutmuas.Ledger.Lasting.{IsLasting, Reach-lasts}
use mutmuas.Ledger.SentRows.{is_sent, is_marked, Direction-cases}

abbrev is_unsent_row : String → Message → Bool
is_unsent_row id m = has_message_key id outbound m && is_queued m.state

-- Whether the outgoing message with the id waits to be published.
abbrev pub is_unsent : String → Ledger → Bool
is_unsent id l = any (is_unsent_row id) l.messages

abbrev is_out_row : String → Message → Bool
is_out_row id m = has_message_key id outbound m && (is_queued m.state || is_sent m.state)

abbrev is_out : String → Ledger → Bool
is_out id l = any (is_out_row id) l.messages

out_parts :
    (id : String) (ms : List Message)
    → any (is_out_row id) ms ≡ (
        any (is_unsent_row id) ms || any (λ m. has_message_key id outbound m && is_sent m.state) ms)
out_parts id [] = refl
out_parts id (m ∷ ms) = ground (arith, out_parts id ms)

-- The inbound rows are not touched by it, and an outgoing row stays in the outbox or is marked.
is_out-IsLasting : (id : String) → IsLasting (is_out_row id)
is_out-IsLasting id = record {
  tried = λ m n e now. refl;
  read = λ m b. refl;
  settles = λ m i s e now settled inward out. elim (Direction-cases m.direction) [
    | inl d ↦ absurd (ground arith)
    | inr d ↦ absurd (ground arith)
  ];
  leaves = λ m i now outward out. ground arith;
}

-- A message that waits to be published still waits, or is marked as sent, after any sequence of
-- operations of the ledger.
pub never_forgotten :
    (id : String) (l l' : Ledger)
    → Reach l l'
    → is_unsent id l ≡ true
    → (is_unsent id l' ≡ true) ⊎ (is_marked id l' ≡ true)
never_forgotten id l l' r waits =
    let out =
      Reach-lasts (is_out_row id) (is_out-IsLasting id) r
        (out_parts id l.messages ∙ rw waits refl) in
    ground (arith, out, out_parts id l'.messages)
