-- ===== src/Node/Steps.antt =====
-- The receiver and the requests of src/mutmuas/node.py, by the rules of Hub/Runs.
use mutmuas.Prelude.{String, arith, Option, none, some, List, [], ◌∷◌}
use mutmuas.Result.{Code, Result, ok, err, protocol_error}
use mutmuas.Ids.{Address}
use mutmuas.Json.{Json, Fields}
use mutmuas.Config.{AgentConfig}
use mutmuas.Protocol.Envelope.{Envelope}
use mutmuas.Ledger.Rows.{Task}
use mutmuas.Ledger.History.{ingests, creates}
use mutmuas.Ledger.Tasks.{create_owned_task}
use mutmuas.Hub.State.{transaction}
use mutmuas.Hub.Promise.{Promise, Runs-modify, Runs-transaction}
use mutmuas.Hub.Runs.{Runs, Runs-raise, run_rules}
use mutmuas.Hub.Steps.{send-Runs}
use mutmuas.Hub.OwnerSteps.{
  reply-Runs, or_raise-Runs, new_envelope-Runs, owner_transition-Runs, publish_task_record-Runs,
}
use mutmuas.Exec.{modify}
use mutmuas.Ledger.Inbox
use mutmuas.Node.Receive
use mutmuas.Node.Receive.{answer_error, error_back, ingest, received, receive_one}
use mutmuas.Node.Requests.{
  accept, enqueue, notify_one, notify, take_on, refuse_or_take, repeat_stored, new_request,
  request_found, on_request,
}

module _ (P : Promise) where
  answer_error-Runs :
      (addr : String) (code : Code) (text : String) (s : Option (Fields × Address))
      → Runs P.rel (answer_error addr code text s)
  answer_error-Runs addr code text none = search (run_rules)
  answer_error-Runs addr code text (some s) =
      search (run_rules, new_envelope-Runs P, send-Runs P) depth 16

  ingest-Runs : (env : Envelope) → Runs P.rel (ingest env)
  ingest-Runs env =
      Runs-transaction P (λ t l. ok (Inbox.ingest t env l))
        (λ t l l' b h. (ingests t env (ground arith)))

  accept-Runs :
      (addr subject : String) (env : Envelope) → Runs P.rel (Receive.accept addr subject env)
  accept-Runs addr subject env = search (run_rules, ingest-Runs) depth 12

  error_back-Runs :
      (raw : Option Json) (addr : String) (code : Code) (text : String)
      → Runs P.rel (error_back raw addr code text)
  unfolding error_back
  error_back-Runs raw addr code text = answer_error-Runs addr code text (Receive.sender_of raw)

  received-Runs :
      (raw : Option Json) (addr subject : String) (r : Result Envelope)
      → Runs P.rel (received raw addr subject r)
  received-Runs raw addr subject (ok env) = accept-Runs addr subject env
  received-Runs raw addr subject (err (protocol_error code)) =
      search (run_rules, error_back-Runs) depth 12
  received-Runs raw addr subject (err _) = Runs-raise _

  pub receive_one-Runs :
      (addr subject : String) (raw : Option Json) → Runs P.rel (receive_one addr subject raw)
  unfolding receive_one
  receive_one-Runs addr subject raw = search (run_rules, received-Runs) depth 12

  pub accept_task-Runs : (id : String) → Runs P.rel (accept id)
  unfolding accept
  accept_task-Runs id = search (owner_transition-Runs P)

  pub enqueue-Runs : (addr id : String) → Runs P.rel (modify (enqueue addr id))
  unfolding enqueue
  enqueue-Runs addr id = Runs-modify P (enqueue addr id) (λ s. ground arith) (λ s. ground arith)

  notify_one-Runs : (sender id text target : String) → Runs P.rel (notify_one sender id text target)
  notify_one-Runs sender id text target =
      search (run_rules, new_envelope-Runs P, send-Runs P) depth 12

  pub notify-Runs :
      (targets : List String) (sender id text : String) → Runs P.rel (notify targets sender id text)
  unfolding notify
  notify-Runs [] sender id text = search (run_rules)
  notify-Runs (t ∷ ts) sender id text = search (run_rules, notify_one-Runs, notify-Runs ts) depth 12

  take_on-Runs :
      (agent : AgentConfig) (env : Envelope) (id : String) → Runs P.rel (take_on agent env id)
  take_on-Runs agent env id =
      search (run_rules, accept_task-Runs, enqueue-Runs, notify-Runs, reply-Runs P) depth 20

  refuse_or_take-Runs :
      (agent : AgentConfig) (env : Envelope) (id : String) (d : Option String)
      → Runs P.rel (refuse_or_take agent env id d)
  refuse_or_take-Runs agent env id none =
      search (run_rules, publish_task_record-Runs P, take_on-Runs) depth 12
  refuse_or_take-Runs agent env id (some d) = search (run_rules, owner_transition-Runs P) depth 12

  repeat_stored-Runs :
      (env : Envelope) (t : Task) (o : Option Fields) → Runs P.rel (repeat_stored env t o)
  repeat_stored-Runs env t none = search (run_rules)
  repeat_stored-Runs env t (some r) = search (run_rules, reply-Runs P) depth 12

  create-Runs : (env : Envelope) → Runs P.rel (transaction (λ t l. create_owned_task t env l))
  create-Runs env = Runs-transaction P _ (λ t l l' b h. (creates t env b h))

  new_request-Runs : (agent : AgentConfig) (env : Envelope) → Runs P.rel (new_request agent env)
  new_request-Runs agent env =
      search (run_rules, create-Runs, or_raise-Runs P, refuse_or_take-Runs) depth 16

  request_found-Runs :
      (agent : AgentConfig) (env : Envelope) (o : Option Task)
      → Runs P.rel (request_found agent env o)
  request_found-Runs agent env none = new_request-Runs agent env
  request_found-Runs agent env (some t) = repeat_stored-Runs env t t.result

  pub on_request-Runs : (agent : AgentConfig) (env : Envelope) → Runs P.rel (on_request agent env)
  unfolding on_request
  on_request-Runs agent env = search (run_rules, request_found-Runs) depth 12
