-- ===== src/Hub/Finish.antt =====
-- Operations of src/mutmuas/hub.py on tasks in a terminal state: finish, owner_transition.
use mutmuas.Prelude.{
  ℕ, suc, Bool, String, ◌≡◌, refl, true, false, Option, some, List, [], ◌∷◌, ◌⊎◌, inl, inr,
}
use mutmuas.Result.{Error, Result, ok, err, Result-cases}
use mutmuas.Json.{Json, Fields, get}
use mutmuas.Protocol.Types.{MessageType, TaskState, is_terminal, task_state_for_result}
use mutmuas.Protocol.Envelope.{ArtifactRef, validate}
use mutmuas.Ledger.Rows.{Task, Ledger, owner}
use mutmuas.Ledger.Tasks.{
  task, update_task, is_refused, Change, set_result, set_result_status, set_output_refs,
}
use mutmuas.Hub.State.{State}
use mutmuas.Hub.Sending.{seal}
use mutmuas.Hub.Owner.{owner_draft, payload, owner_transition, finish, status_of}

refused_update :
    (now : ℕ) (id : String) (c : Change) (l : Ledger) (t : Task)
    → task id owner l ≡ some t
    → is_refused t c.force c.status ≡ true
    → update_task now id owner c l ≡ ok (l, false)
unfolding update_task
refused_update now id c l t found refused = rw (update_task, found) (rw refused refl)

-- An operation that left ledger, stream and task records as they were, and did not report success.
pub record IsRefused (r : Result Bool) (s t : State) : Type 0 where
  pub ledger : t.ledger ≡ s.ledger
  pub stream : t.stream ≡ s.stream
  pub records : t.records ≡ s.records
  pub result : (r ≡ ok false) ⊎ ((e : Error) × (r ≡ err e))

-- A change of a task that is in a terminal state is refused: no row, no message, no task record and no
-- success, whatever the message and the bus.
pub owner_transition-IsRefused :
    (id : String) (to : TaskState) (message : Json) (type : MessageType) (body : Option Fields)
    (s : State) (t : Task)
    → task id owner s.ledger ≡ some t
    → is_terminal t.status ≡ true
    → IsRefused
        (owner_transition id to message type body s).0
        s
        (owner_transition id to message type body s).1
unfolding owner_transition
owner_transition-IsRefused id to message type body s t found final =
    elim (Result-cases
      (validate (seal (owner_draft t type (payload to message body) []) s.asked s.world))) [
        | inr (e, bad) ↦
            rw (owner_transition, found, bad)
              (record { ledger = refl; stream = refl; records = refl; result = inr (e, refl) })
        | inl (env, good) ↦
            rw (owner_transition, found, good)
              (rw
                (refused_update (s.world.time (suc s.asked)) id
                  (record { status = some to; force = false; announce = some env; columns = [] })
                  s.ledger t found (rw final refl))
                (record { ledger = refl; stream = refl; records = refl; result = inl refl }))
      ]

-- A task that is in a terminal state is not finished again: no row changes, no RESULT is queued or
-- published, no task record is written, and the call does not report success.
pub finish-IsRefused :
    (id : String) (result : Fields) (refs : List ArtifactRef) (s : State) (t : Task)
    → task id owner s.ledger ≡ some t
    → is_terminal t.status ≡ true
    → IsRefused (finish id result refs s).0 s (finish id result refs s).1
unfolding finish
finish-IsRefused id result refs s t found final =
    elim (Result-cases
      (validate (seal (owner_draft t MessageType.result result refs) s.asked s.world))) [
        | inr (e, bad) ↦
            rw (finish, found, bad)
              (record { ledger = refl; stream = refl; records = refl; result = inr (e, refl) })
        | inl (env, good) ↦ elim (Result-cases (status_of (get result "status"))) [
          | inr (e, bad) ↦
              rw (finish, found, good)
                (rw bad
                  (record { ledger = refl; stream = refl; records = refl; result = inr (e, refl) }))
          | inl (status, read) ↦
              rw (finish, found, good)
                (rw read (
                  rw
                    (refused_update (s.world.time (suc s.asked)) id
                      (record {
                        status = some (task_state_for_result status.1);
                        force = false;
                        announce = some env;
                        columns =
                            set_result result
                            ∷ set_result_status status.0
                            ∷ set_output_refs refs
                            ∷ [];
                      })
                      s.ledger t found (rw final refl))
                    (record { ledger = refl; stream = refl; records = refl; result = inl refl })))
        ]
      ]
