-- ===== src/Hub/OwnerSteps.antt =====
-- The owner's operations and requests of src/mutmuas/hub.py, by the rules of Hub/Runs.
use mutmuas.Prelude.{String, refl, Bool, true, false, Option, none, some, List}
use mutmuas.Result.{Result, ok, err}
use mutmuas.Ids.{Address}
use mutmuas.Json.{Json, Fields}
use mutmuas.Protocol.Types.{MessageType, TaskState}
use mutmuas.Protocol.Envelope.{ArtifactRef, Envelope}
use mutmuas.Ledger.Rows.{Task, Message}
use mutmuas.Hub.State.{Outcome, acked, lost, unacked, TaskRecord}
use mutmuas.Hub.Promise.{Promise, Runs-modify, update-Runs}
use mutmuas.Hub.Runs.{Runs, run_rules}
use mutmuas.Hub.Requests.{request, reply, resolve, or_raise, task_id_or_new}
use mutmuas.Hub.Owner.{
  put_record, kv_put, put_parsed, publish_row, publish_task_record, announce, owned,
  owner_transition, finish,
}
use mutmuas.Hub.Steps.{try_publish-Runs, send-Runs}
use mutmuas.Hub.Sending.{Draft, new_envelope}

module _ (P : Promise) where
  put_record-Runs : (r : TaskRecord) → Runs P.rel (put_record r)
  put_record-Runs r = Runs-modify P _ (λ s. refl) (λ s. refl)

  kv_put-Runs : (o : Outcome) (r : TaskRecord) → Runs P.rel (kv_put o r)
  kv_put-Runs lost r = search (run_rules)
  kv_put-Runs acked r = put_record-Runs r
  kv_put-Runs unacked r = put_record-Runs r

  put_parsed-Runs :
      (a : Result Address) (o : Outcome) (t : Task) (ms : List Message)
      → Runs P.rel (put_parsed a o t ms)
  put_parsed-Runs (ok a) o t ms = kv_put-Runs o _
  put_parsed-Runs (err e) o t ms = search (run_rules)

  publish_row-Runs : (t : Option Task) → Runs P.rel (publish_row t)
  publish_row-Runs none = search (run_rules)
  publish_row-Runs (some t) = search (run_rules, put_parsed-Runs) depth 14

  pub publish_task_record-Runs : (id : String) → Runs P.rel (publish_task_record id)
  unfolding publish_task_record
  publish_task_record-Runs id = search (run_rules, publish_row-Runs) depth 12

  announce-Runs : (id : String) (env : Envelope) (b : Bool) → Runs P.rel (announce id env b)
  announce-Runs id env false = search (run_rules)
  announce-Runs id env true =
      search (run_rules, try_publish-Runs P, publish_task_record-Runs) depth 12

  pub or_raise-Runs :
      {A : Type 0} → (o : Option A) (e : mutmuas.Result.Error) → Runs P.rel (or_raise o e)
  or_raise-Runs none e = search (run_rules)
  or_raise-Runs (some a) e = search (run_rules)

  pub new_envelope-Runs : (d : Draft) → Runs P.rel (new_envelope d)
  new_envelope-Runs d = search (run_rules) depth 12

  owned-Runs : (id : String) → Runs P.rel (owned id)
  owned-Runs id = search (run_rules, or_raise-Runs) depth 12

  pub owner_transition-Runs :
      (id : String) (s : TaskState) (message : Json) (t : MessageType) (body : Option Fields)
      → Runs P.rel (owner_transition id s message t body)
  unfolding owner_transition
  owner_transition-Runs id s message t body =
      search (run_rules, owned-Runs, new_envelope-Runs, announce-Runs, update-Runs P) depth 20

  pub finish-Runs :
      (id : String) (result : Fields) (refs : List ArtifactRef) → Runs P.rel (finish id result refs)
  unfolding finish
  finish-Runs id result refs =
      search (run_rules, owned-Runs, new_envelope-Runs, announce-Runs, update-Runs P) depth 20

  pub resolve-Runs : (target : String) → Runs P.rel (resolve target)
  unfolding resolve
  resolve-Runs target = search (run_rules) depth 16

  task_id_or_new-Runs : (o : Option String) → Runs P.rel (task_id_or_new o)
  task_id_or_new-Runs none = search (run_rules) depth 12
  task_id_or_new-Runs (some id) = search (run_rules) depth 12

  pub request-Runs :
      (sender : Option String) (to : String) (body : Fields) (refs : List ArtifactRef)
      (parent : Option String) (priority : String) (id : Option String)
      → Runs P.rel (request sender to body refs parent priority id)
  unfolding request
  request-Runs sender to body refs parent priority id =
      search (run_rules, resolve-Runs, task_id_or_new-Runs, new_envelope-Runs, send-Runs P) depth 24

  pub reply-Runs :
      (who id : String) (t : MessageType) (body : Fields) (refs : List ArtifactRef)
      → Runs P.rel (reply who id t body refs)
  unfolding reply
  reply-Runs who id t body refs =
      search (run_rules, or_raise-Runs, new_envelope-Runs, send-Runs P) depth 24
