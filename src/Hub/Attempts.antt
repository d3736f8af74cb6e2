-- ===== src/Hub/Attempts.antt =====
-- How an attempt to publish ends (src/mutmuas/hub.py: try_publish).
use mutmuas.Prelude.{
  ℕ, suc, String, ◌≡◌, refl, Bool, true, false, List, [], ◌∷◌, ◌++◌, ◌⊎◌, inl, inr,
}
use mutmuas.Result.{Error, Result, ok, err, Result-cases}
use mutmuas.Protocol.Envelope.{Envelope}
use mutmuas.Ledger.Outbox.{mark_sent, mark_send_error}
use mutmuas.Hub.State.{State, Outcome, acked, lost, unacked}
use mutmuas.Hub.Sending.{Sent, sent, queued, subject_of, attempt, publish, try_publish}

-- The stream with one message more.
abbrev pub with_message : State → String → Envelope → List (String × Envelope)
with_message s subject env = s.stream ++ ((subject, env) ∷ [])

-- The ends of an attempt, whose first question, of the connection, has the number q and the next, of the
-- publication, the number after it: no connection; published, acknowledged, and marked as sent; or failed
-- with the error noted, where the address does not parse or the message or its acknowledgement is lost.
pub data Attempted (env : Envelope) (q : ℕ) (s : State) : Result Sent → State → Type 0 where
  offline :
      (n : ℕ) → s.world.connected q ≡ false → Attempted env q s (ok queued) (record s { asked = n })
  published :
      (n now : ℕ) (subject : String)
      → s.world.connected q ≡ true
      → subject_of env s.cfg ≡ ok subject
      → s.world.outcome (suc q) ≡ acked
      → Attempted env q s (ok sent) (record s {
        asked = n;
        ledger = mark_sent now env.message_id s.ledger;
        stream = with_message s subject env;
      })
  failed :
      (n now : ℕ) (error : String)
      → s.world.connected q ≡ true
      → ((e : Error) × (subject_of env s.cfg ≡ err e)) ⊎ (s.world.outcome (suc q) ≡ lost)
      → Attempted env q s
          (ok queued)
          (record s { asked = n; ledger = mark_send_error now env.message_id error s.ledger })
  half_done :
      (n now : ℕ) (error subject : String)
      → s.world.connected q ≡ true
      → subject_of env s.cfg ≡ ok subject
      → s.world.outcome (suc q) ≡ unacked
      → Attempted env q s (ok queued) (record s {
        asked = n;
        ledger = mark_send_error now env.message_id error s.ledger;
        stream = with_message s subject env;
      })

Outcome-cases : (o : Outcome) → (o ≡ acked) ⊎ ((o ≡ lost) ⊎ (o ≡ unacked))
Outcome-cases acked = inl refl
Outcome-cases lost = inr (inl refl)
Outcome-cases unacked = inr (inr refl)

attempt-Attempted :
    (env : Envelope) (b : Bool) (s : State)
    → s.world.connected s.asked ≡ b
    → Attempted env s.asked s
        (attempt env b (record s { asked = suc s.asked })).0
        (attempt env b (record s { asked = suc s.asked })).1
unfolding publish
attempt-Attempted env false s up = offline (suc s.asked) up
attempt-Attempted env true s up = elim (Result-cases (subject_of env s.cfg)) [
  | inr (e, bad) ↦
      let n = suc s.asked in
      rw bad (failed (suc (suc n)) (s.world.time (suc n)) (s.world.error_text n) up (inl (e, bad)))
  | inl (subject, good) ↦
      let n = suc s.asked in
      elim (Outcome-cases (s.world.outcome n)) [
        | inl o ↦ rw (good, o) (published (suc (suc n)) (s.world.time (suc n)) subject up good o)
        | inr (inl o) ↦
            rw (good, o)
              (failed (suc (suc (suc n))) (s.world.time (suc (suc n))) (s.world.error_text (suc n))
                up (inr o))
        | inr (inr o) ↦
            rw (good, o)
              (half_done (suc (suc (suc n))) (s.world.time (suc (suc n)))
                (s.world.error_text (suc n)) subject up good o)
      ]
]

pub try_publish-Attempted :
    (env : Envelope) (s : State)
    → Attempted env s.asked s (try_publish env s).0 (try_publish env s).1
unfolding try_publish
try_publish-Attempted env s = attempt-Attempted env (s.world.connected s.asked) s refl
