-- ===== src/Hub/Refines.antt =====
-- The hub's publication (src/mutmuas/hub.py) as steps of the ledger's history.
use mutmuas.Prelude.{String, refl, Bool, true, false}
use mutmuas.Result.{bus_unavailable}
use mutmuas.Protocol.Envelope.{Envelope}
use mutmuas.Ledger.Rows.{Ledger}
use mutmuas.Ledger.Outbox
use mutmuas.Ledger.History.{Step, Reach, here, next, sends, fails, local}
use mutmuas.Hub.State.{Outcome, acked, lost, unacked, on_ledger}
use mutmuas.Hub.Promise.{Promise}
use mutmuas.Hub.Runs.{StateRel, Runs, Runs-bind, Runs-raise, run_rules}
use mutmuas.Hub.Sending.{store, deliver, settle, attempt, publish, try_publish}

pub Reach-trans : {l m n : Ledger} → Reach l m → Reach m n → Reach l n
Reach-trans r here = r
Reach-trans r (next q s) = next (Reach-trans r q) s

pub Reach-once : {l l' : Ledger} → Step l l' → Reach l l'
Reach-once s = next here s

abbrev pub reaches : StateRel
reaches = record {
  holds = λ s t. Reach s.ledger t.ledger;
  chain = λ p q. Reach-trans p q;
  quiet = λ s t same _. rw (← same) here;
}

mark_sent-Runs : (id : String) → Runs reaches (on_ledger (λ t. Outbox.mark_sent t id))
mark_sent-Runs id = record { at = λ s. Reach-once (sends (s.world.time s.asked) id refl) }

mark_send_error-Runs :
    (id text : String) → Runs reaches (on_ledger (λ t. Outbox.mark_send_error t id text))
mark_send_error-Runs id text = record {
  at = λ s. Reach-once (local (fails (s.world.time s.asked) id text refl));
}

store-Runs : (subject : String) (env : Envelope) → Runs reaches (store subject env)
store-Runs subject env = record { at = λ s. here }

deliver-Runs :
    (o : Outcome) (subject : String) (env : Envelope) → Runs reaches (deliver o subject env)
deliver-Runs acked subject env = store-Runs subject env
deliver-Runs lost subject env = Runs-raise bus_unavailable
deliver-Runs unacked subject env =
    Runs-bind _ _ (store-Runs subject env) (λ _. Runs-raise bus_unavailable)

publish-Runs : (env : Envelope) → Runs reaches (publish env)
unfolding publish
publish-Runs env = search (run_rules, deliver-Runs) depth 12

settle-Runs : (env : Envelope) (b : Bool) → Runs reaches (settle env b)
settle-Runs env true = search (run_rules, mark_sent-Runs) depth 12
settle-Runs env false = search (run_rules, mark_send_error-Runs) depth 12

attempt-Runs : (env : Envelope) (b : Bool) → Runs reaches (attempt env b)
attempt-Runs env false = search (run_rules)
attempt-Runs env true = search (run_rules, publish-Runs, settle-Runs) depth 12

pub try_publish-Runs : (env : Envelope) → Runs reaches (try_publish env)
unfolding try_publish
try_publish-Runs env = search (run_rules, attempt-Runs) depth 12

-- The promise that the ledger changes by its own steps alone.
abbrev pub by_steps : Promise
by_steps = record {
  rel = reaches;
  local = λ s t step _. Reach-once (local step);
  attempts = try_publish-Runs;
}
