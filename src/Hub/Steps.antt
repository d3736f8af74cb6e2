-- ===== src/Hub/Steps.antt =====
-- Sending and flushing (src/mutmuas/hub.py), by the rules of Hub/Runs.
use mutmuas.Prelude.{ℕ, List, [], ◌∷◌}
use mutmuas.Protocol.Envelope.{Envelope}
use mutmuas.Hub.State.{M}
use mutmuas.Hub.Promise.{Promise, queue_outgoing-Runs}
use mutmuas.Hub.Runs.{Runs, Runs-bind, run_rules}
use mutmuas.Hub.Sending.{Sent, sent, queued, try_publish, send, flush, flush_outbox, and_then}

module _ (P : Promise) where
  pub try_publish-Runs : (env : Envelope) → Runs P.rel (try_publish env)
  try_publish-Runs env = P.attempts env

  pub send-Runs : (env : Envelope) → Runs P.rel (send env)
  unfolding send
  send-Runs env = search (run_rules, queue_outgoing-Runs P, try_publish-Runs) depth 12

  and_then-Runs : (m : M ℕ) (s : Sent) → Runs P.rel m → Runs P.rel (and_then m s)
  and_then-Runs m queued rm = search (run_rules)
  and_then-Runs m sent rm = search (run_rules) depth 12

  flush-Runs : (envs : List Envelope) → Runs P.rel (flush envs)
  unfolding flush
  flush-Runs [] = search (run_rules)
  flush-Runs (env ∷ rest) =
      Runs-bind (try_publish env) _ (try_publish-Runs env)
        (λ s. and_then-Runs (flush rest) s (flush-Runs rest))

  pub flush_outbox-Runs : Runs P.rel flush_outbox
  unfolding flush_outbox
  flush_outbox-Runs = search (run_rules, flush-Runs) depth 12
