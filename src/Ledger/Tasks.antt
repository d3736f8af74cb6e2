-- ===== src/Ledger/Tasks.antt =====
-- The tasks (src/mutmuas/ledger.py: create_owned_task, task, tasks, update_task, bump_attempts).
use mutmuas.Prelude.{
  ℕ, suc, String, Bool, true, false, not, ◌&&◌, Option, none, some, List, [], ◌∷◌, any, find,
  is_some, select, update_where, ◌==◌, ltb, take, if◌then◌else◌,
}
use mutmuas.Result.{Result, ok, err, type_error, ◌>>=◌}
use mutmuas.Json.{Fields}
use mutmuas.Protocol.Types.{TaskState, is_terminal, state_text}
use mutmuas.Protocol.Envelope.{ArtifactRef, Envelope}
use mutmuas.Ledger.Rows.{Role, requester, owner, Task, Ledger, has_task_key, is_role}
use mutmuas.Ledger.Insert.{insert_task}
use mutmuas.Ledger.Outbox.{queue}

unfoldable pub create_owned_task : ℕ → Envelope → Ledger → Result (Ledger × Bool)
unfolding insert_task
create_owned_task now req l = insert_task now req owner req.to TaskState.pending l

-- `task(task_id, role)`
unfoldable pub task : String → Role → Ledger → Option Task
task id role l = find (has_task_key id role) l.tasks

-- `task(task_id)`: the owner's row before the requester's.
unfoldable pub any_task : String → Ledger → Option Task
unfolding task
any_task id l = elim (task id owner l) [ some t ↦ some t | none ↦ task id requester l ]

-- The columns that `update_task` is called with, beside the status.
pub data Column : Type 0 where
  set_result : Fields → Column
  set_result_status : String → Column
  set_result_draft : Option Fields → Column
  set_output_refs : List ArtifactRef → Column
  set_last_message : String → Column

abbrev pub assign : Task → Column → Task
assign t (set_result r) = record t { result = some r }
assign t (set_result_status s) = record t { result_status = some s }
assign t (set_result_draft d) = record t { result_draft = d }
assign t (set_output_refs refs) = record t { output_refs = refs }
assign t (set_last_message id) = record t { last_message = some id }

abbrev pub assign_all : List Column → Task → Task
assign_all [] t = t
assign_all (c ∷ cs) t = assign_all cs (assign t c)

abbrev pub with_status : Option TaskState → Task → Task
with_status none t = t
with_status (some s) t = record t { status = s }

-- The rows that an accepted update writes.
abbrev pub write_task : ℕ → String → Role → Option TaskState → List Column → Ledger → Ledger
write_task now id role status columns l = record l {
  tasks =
      update_where (has_task_key id role)
        (λ (t : Task). assign_all columns (with_status status (record t { updated_at = now })))
        l.tasks;
}

-- A status is refused in a terminal state, unless forced.
abbrev pub is_refused : Task → Bool → Option TaskState → Bool
is_refused t force status = is_terminal t.status && (not force && is_some status)

-- The message that announces the change, queued in the same transaction.
abbrev pub queue_given : ℕ → Option Envelope → Ledger → Result Ledger
queue_given now none l = ok l
queue_given now (some env) l = queue now env l

pub record Change : Type 0 where
  pub status : Option TaskState
  pub force : Bool
  pub announce : Option Envelope
  pub columns : List Column

unfoldable pub update_task : ℕ → String → Role → Change → Ledger → Result (Ledger × Bool)
unfolding task
update_task now id role c l = elim (task id role l) [
  | none ↦ ok (l, false)
  | some t ↦ if is_refused t c.force c.status then ok (l, false) else (do
    l' ← queue_given now c.announce (write_task now id role c.status c.columns l)
    ok (l', true))
]

-- The attempts after one more; no row to read is a TypeError of Python's.
unfoldable pub bump_attempts : ℕ → String → Ledger → Result (Ledger × ℕ)
unfolding task
bump_attempts now id l =
    let bumped = record l {
      tasks =
          update_where (has_task_key id owner)
            (λ (t : Task). record t { attempts = suc t.attempts; updated_at = now }) l.tasks;
    } in
    elim (task id owner bumped) [ none ↦ err type_error | some t ↦ ok (bumped, t.attempts) ]

-- status IN (...); no filter for an empty tuple
abbrev pub is_one_of : List TaskState → TaskState → Bool
is_one_of [] s = true
is_one_of (u ∷ us) s = any (λ v. state_text v == state_text s) (u ∷ us)

-- ORDER BY created_at DESC; rows of one time keep their order.
abbrev insert_newest : Task → List Task → List Task
insert_newest t [] = t ∷ []
insert_newest t (u ∷ us) =
    if ltb t.created_at u.created_at then u ∷ insert_newest t us else t ∷ u ∷ us

abbrev newest_first : List Task → List Task
newest_first [] = []
newest_first (t ∷ ts) = insert_newest t (newest_first ts)

abbrev limited : Option ℕ → List Task → List Task
limited none ts = ts
limited (some n) ts = take n ts

-- `tasks(role, statuses, local_agent, limit)` for a given role
unfoldable pub tasks : Role → List TaskState → Option String → Option ℕ → Ledger → List Task
tasks role statuses local_agent limit l = limited limit (
    newest_first (
      select
        (λ (t : Task).
          is_role t.role role
          && (is_one_of statuses t.status
              && elim local_agent [ none ↦ true | some a ↦ t.local_agent == a ]))
        l.tasks))
