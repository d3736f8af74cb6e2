-- ===== src/Hub/Published.antt =====
-- The outbox against the stream of the server, over src/mutmuas/hub.py: try_publish.
use mutmuas.Prelude.{
  ℕ, String, ◌≡◌, refl, ◌∙◌, sym, ap, Bool, true, List, [], ◌∷◌, arith, any, ◌==◌, eq_refl,
  any-append, inl, inr,
}
use mutmuas.Result.{Result}
use mutmuas.Protocol.Envelope.{Envelope}
use mutmuas.Ledger.Rows.{Ledger}
use mutmuas.Ledger.Outbox.{mark_send_error}
use mutmuas.Ledger.History.{fails}
use mutmuas.Ledger.SentRows.{is_marked, Local-is_marked, mark_sent-is_marked}
use mutmuas.Hub.State.{State}
use mutmuas.Hub.Promise.{Promise}
use mutmuas.Hub.Sending.{Sent}
use mutmuas.Hub.Attempts.{
  Attempted, offline, published, failed, half_done, try_publish-Attempted, with_message,
}

abbrev pub has_id : String → String × Envelope → Bool
has_id id (_, env) = env.message_id == id

-- Whether the server has stored a message with the id.
abbrev pub is_in_stream : String → State → Bool
is_in_stream id s = any (has_id id) s.stream

-- Every outgoing message that is marked as sent has been stored by the server.
abbrev pub IsPublished : State → Type 0
IsPublished s = (id : String) → is_marked id s.ledger ≡ true → is_in_stream id s ≡ true

keeps_stream :
    (id : String) (s : State) (subject : String) (env : Envelope)
    → is_in_stream id s ≡ true
    → any (has_id id) (with_message s subject env) ≡ true
keeps_stream id s subject env h =
    ground (arith, any-append (has_id id) s.stream ((subject, env) ∷ []))

adds_message :
    (s : State) (subject : String) (env : Envelope)
    → any (has_id env.message_id) (with_message s subject env) ≡ true
adds_message s subject env = ground (
  arith,
  any-append (has_id env.message_id) s.stream ((subject, env) ∷ []),
  eq_refl env.message_id,
)

fails_marks :
    (id i : String) (now : ℕ) (e : String) (l : Ledger)
    → is_marked id (mark_send_error now i e l) ≡ is_marked id l
fails_marks id i now e l = Local-is_marked id (fails now i e refl)

pub Attempted-IsPublished :
    (env : Envelope) (q : ℕ) (s : State) (r : Result Sent) (t : State)
    → Attempted env q s r t
    → IsPublished s
    → IsPublished t
Attempted-IsPublished env q s r t (offline n up) sound id h = sound id h
Attempted-IsPublished env q s r t (published n now subject up good o) sound id h =
    elim (mark_sent-is_marked now env.message_id id s.ledger h) [
      | inl same ↦ rw (← same) (adds_message s subject env)
      | inr old ↦ keeps_stream id s subject env (sound id old)
    ]
Attempted-IsPublished env q s r t (failed n now e up why) sound id h =
    sound id (sym (fails_marks id env.message_id now e s.ledger) ∙ h)
Attempted-IsPublished env q s r t (half_done n now e subject up good o) sound id h =
    keeps_stream id s subject env
      (sound id (sym (fails_marks id env.message_id now e s.ledger) ∙ h))

-- The promise that what is marked as sent has been published.
abbrev pub nothing_lost : Promise
nothing_lost = record {
  rel = record {
    holds = λ s t. IsPublished s → IsPublished t;
    chain = λ p q sound. q (p sound);
    quiet = λ s t same_ledger same_stream sound id h.
        sym (ap (λ (m : List (String × Envelope)). any (has_id id) m) same_stream)
        ∙ sound id (ap (λ (l : Ledger). is_marked id l) same_ledger ∙ h);
  };
  local = λ s t step same sound id h.
      sym (ap (λ (m : List (String × Envelope)). any (has_id id) m) same)
      ∙ sound id (sym (Local-is_marked id step) ∙ h);
  attempts = λ env. record {
    at = λ s. Attempted-IsPublished env s.asked s _ _ (try_publish-Attempted env s);
  };
}
