-- ===== src/Hub/Owner.antt =====
-- The owner's side of a task (src/mutmuas/hub.py: publish_task_record, owner_transition, finish).
use mutmuas.Prelude.{String, Bool, true, false, Option, none, some, List, [], ◌∷◌, ◌++◌}
use mutmuas.Result.{Result, ok, err, key_error}
use mutmuas.Exec.{◌>>=◌, ◌>>◌, gets, modify, pure, lift}
use mutmuas.Json.{Json, str, Fields, end, field, get}
use mutmuas.Ids.{Address, parse}
use mutmuas.Bus.{task_key}
use mutmuas.Protocol.Types.{
  MessageType, TaskState, ResultStatus, state_text, result_status, task_state_for_result,
}
use mutmuas.Protocol.Envelope.{ArtifactRef, Envelope, validate, malformed}
use mutmuas.Protocol.Codec.{json_of}
use mutmuas.Ledger.Rows.{Task, Message, owner}
use mutmuas.Ledger.Tasks.{task, update_task, set_result, set_result_status, set_output_refs}
use mutmuas.Ledger.Thread.{thread}
use mutmuas.Hub.State.{State, Outcome, lost, M, ask, transaction, TaskRecord}
use mutmuas.Hub.Sending.{Draft, new_envelope, try_publish}
use mutmuas.Hub.Requests.{or_raise}

abbrev pub put_record : TaskRecord → M (Unit {0})
put_record r = modify (λ (s : State). record s { records = s.records ++ (r ∷ []) })

-- The write to the shared store: any failure is logged and goes no further.
abbrev pub kv_put : Outcome → TaskRecord → M (Unit {0})
kv_put lost r = pure tt
kv_put _ r = put_record r

-- The record goes under the owner's node, if the owner's address parses.
abbrev pub put_parsed : Result Address → Outcome → Task → List Message → M (Unit {0})
put_parsed (err e) o t ms = pure tt
put_parsed (ok a) o t ms = kv_put o (record { key = task_key a t.task_id; task = t; thread = ms })

abbrev pub publish_row : Option Task → M (Unit {0})
publish_row none = pure tt
publish_row (some t) = do
  messages ← gets (λ (s : State). thread t.task_id s.ledger)
  ms ← lift messages
  k ← ask
  o ← gets (λ (s : State). s.world.outcome k)
  put_parsed (parse t.owner) o t ms

-- `Hub.publish_task_record`
unfoldable pub publish_task_record : String → M (Unit {0})
publish_task_record task_id = do
  found ← gets (λ (s : State). task task_id owner s.ledger)
  publish_row found

abbrev pub owned : String → M Task
owned task_id = do
  found ← gets (λ (s : State). task task_id owner s.ledger)
  or_raise found key_error

abbrev pub owner_draft : Task → MessageType → Fields → List ArtifactRef → Draft
owner_draft t type body artifacts = record {
  type = type;
  sender = t.owner;
  to = t.requester;
  body = body;
  task_id = some t.task_id;
  conversation_id = some t.conversation_id;
  artifacts = artifacts;
  reply_to = json_of t.last_message;
  priority = "normal";
}

-- What follows an update of the owner's row: nothing if it was refused.
abbrev pub announce : String → Envelope → Bool → M Bool
announce task_id env false = pure false
announce task_id env true = do try_publish env; publish_task_record task_id; pure true

-- body if body is not None else {"state": status, "message": message}
abbrev pub payload : TaskState → Json → Option Fields → Fields
payload status message none = field "state" (str (state_text status)) (field "message" message end)
payload status message (some body) = body

-- `Hub.owner_transition`; every call of the program notifies the requester.
unfoldable pub owner_transition : String → TaskState → Json → MessageType → Option Fields → M Bool
unfolding try_publish publish_task_record
owner_transition task_id status message msg_type body = do
  t ← owned task_id
  draft ← new_envelope (owner_draft t msg_type (payload status message body) [])
  env ← lift (validate draft)
  done ← transaction (λ now l.
      update_task now task_id owner
        (record { status = some status; force = false; announce = some env; columns = [] }) l)
  announce task_id env done

-- The status of a result that has been checked, and its text.
abbrev pub status_of : Json → Result (String × ResultStatus)
status_of (str s) = elim (result_status s) [ none ↦ err malformed | some r ↦ ok (s, r) ]
status_of _ = err malformed

-- `Hub.finish`; the envelope's check has made sure that the status is one of the three.
unfoldable pub finish : String → Fields → List ArtifactRef → M Bool
unfolding try_publish publish_task_record
finish task_id result artifacts = do
  t ← owned task_id
  draft ← new_envelope (owner_draft t MessageType.result result artifacts)
  env ← lift (validate draft)
  status ← lift (status_of (get result "status"))
  done ← transaction (λ now l.
      update_task now task_id owner
        (record {
          status = some (task_state_for_result status.1);
          force = false;
          announce = some env;
          columns = set_result result ∷ set_result_status status.0 ∷ set_output_refs artifacts ∷ [];
        })
        l)
  announce task_id env done
