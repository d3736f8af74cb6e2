-- ===== src/Ledger/Transitions.antt =====
-- Task rows under the operations of src/mutmuas/ledger.py, update_task above all.
use mathlib.Core.Option
use mutmuas.Prelude.{
  ℕ, String, ◌≡◌, refl, ◌∙◌, sym, Bool, true, false, Option, none, some, List, [], ◌∷◌, arith,
  eq_iff, Bool-cases, Option-cases, inl, inr, ◌⊎◌, find-append, find-update_where, find-holds,
  changed,
}
use mutmuas.Result.{Result, ok, >>=-eq-ok, ◌>>=◌}
use mutmuas.Protocol.Types.{MessageType, TaskState, is_terminal}
use mutmuas.Protocol.Envelope.{Envelope}
use mutmuas.Ledger.Rows.{Message, Role, requester, Task, Ledger, has_task_key}
use mutmuas.Ledger.Insert.{insert_message, insert_row, insert_task, task_row, outgoing_row}
use mutmuas.Ledger.Outbox.{queue, track}
use mutmuas.Ledger.Tasks.{
  task, Change, Column, assign, assign_all, with_status, write_task, queue_given, update_task,
  is_refused,
}

-- A row that an insertion finds stays where it was.
find-insert_row :
    (t u : Task) (id : String) (r : Role) (l : Ledger)
    → task id r l ≡ some u
    → task id r (insert_row t l).0 ≡ some u
unfolding task insert_row
find-insert_row t u id r l h = ground (arith, find-append (has_task_key id r) l.tasks (t ∷ []))

pub task-insert_task :
    (now : ℕ) (req : Envelope) (r : Role) (a : String) (s : TaskState) (l : Ledger)
    (p : Ledger × Bool) (u : Task) (id : String) (q : Role)
    → insert_task now req r a s l ≡ ok p
    → task id q l ≡ some u
    → task id q p.0 ≡ some u
unfolding insert_task
task-insert_task now req r a s l p u id q h found = elim (Option-cases req.task_id) [
  | inl e ↦ ground arith
  | inr (i, e) ↦ ground (arith, find-insert_row (task_row now req r a s i) u id q l found)
]

has_task_key-assign_all :
    (columns : List Column) (t : Task) (id : String) (r : Role)
    → has_task_key id r (assign_all columns t) ≡ has_task_key id r t
has_task_key-assign_all [] t id r = refl
has_task_key-assign_all (c ∷ cs) t id r =
    has_task_key-assign_all cs (assign t c) id r ∙ ground arith

status-assign_all : (columns : List Column) (t : Task) → (assign_all columns t).status ≡ t.status
status-assign_all [] t = refl
status-assign_all (c ∷ cs) t = status-assign_all cs (assign t c) ∙ ground arith

-- The row that an update writes.
abbrev pub updated : ℕ → Option TaskState → List Column → Task → Task
updated now status columns t =
    assign_all columns (with_status status (record t { updated_at = now }))

-- Reading a task back after a write: the written row under its key, any other row as it was.
pub task-write_task :
    (now : ℕ) (id j : String) (r q : Role) (status : Option TaskState) (columns : List Column)
    (l : Ledger)
    → task j q (write_task now id r status columns l)
      ≡ Option.map (changed (has_task_key id r) (updated now status columns)) (task j q l)
unfolding task
task-write_task now id j r q status columns l =
    find-update_where (has_task_key id r) (has_task_key j q) (updated now status columns) l.tasks
      (λ t.
        has_task_key-assign_all columns (with_status status (record t { updated_at = now })) j q
        ∙ ground arith)

pub tasks-insert_message : (m : Message) (l : Ledger) → (insert_message m l).0.tasks ≡ l.tasks
unfolding insert_message
tasks-insert_message m l = ground arith

task-track :
    (t : MessageType) (now : ℕ) (env : Envelope) (l l' : Ledger) (u : Task) (id : String) (q : Role)
    → track t now env l ≡ ok l'
    → task id q l ≡ some u
    → task id q l' ≡ some u
task-track MessageType.request now env l l' u id q h found =
    let (p, inserted, same) =
      >>=-eq-ok (insert_task now env requester env.sender TaskState.pending l) _ h in
    let last : p.0 ≡ l' = cc in
    rw (← last)
      (task-insert_task now env requester env.sender TaskState.pending l p u id q inserted found)
task-track _ now env l l' u id q h found = ground arith

-- A queued message leaves the rows of the tasks that there are.
pub task-queue :
    (now : ℕ) (env : Envelope) (l l' : Ledger) (u : Task) (id : String) (q : Role)
    → queue now env l ≡ ok l'
    → task id q l ≡ some u
    → task id q l' ≡ some u
unfolding queue
task-queue now env l l' u id q h found =
    task-track env.type now env (insert_message (outgoing_row now env l) l).0 l' u id q h
      (unfold task in rw (tasks-insert_message (outgoing_row now env l) l) found)

pub task-queue_given :
    (now : ℕ) (o : Option Envelope) (l l' : Ledger) (u : Task) (id : String) (q : Role)
    → queue_given now o l ≡ ok l'
    → task id q l ≡ some u
    → task id q l' ≡ some u
task-queue_given now none l l' u id q h found = ground arith
task-queue_given now (some env) l l' u id q h found = task-queue now env l l' u id q h found

-- The branches of an update: it finds no row, is refused, or writes the row and queues its message.
pub update_task_cases :
    (now : ℕ) (id : String) (r : Role) (c : Change) (l l' : Ledger) (done : Bool)
    → update_task now id r c l ≡ ok (l', done)
    → ((done ≡ false)
        × (l' ≡ l)
        × ((task id r l ≡ none)
            ⊎ ((t : Task) × (task id r l ≡ some t) × (is_refused t c.force c.status ≡ true))))
      ⊎ ((done ≡ true)
          × ((t : Task) × (task id r l ≡ some t) × (is_refused t c.force c.status ≡ false))
          × (queue_given now c.announce (write_task now id r c.status c.columns l) ≡ ok l'))
unfolding update_task
update_task_cases now id r c l l' done h = elim (Option-cases (task id r l)) [
  | inl e ↦ inl (ground arith, ground arith, inl e)
  | inr (t, e) ↦ elim (Bool-cases (is_refused t c.force c.status)) [
    | inl refused ↦ inl (ground arith, ground arith, inr (t, e, refused))
    | inr allowed ↦
        let accepted : ◌≡◌ {A = Result (Ledger × Bool)}
            (do
              x ← queue_given now c.announce (write_task now id r c.status c.columns l)
              ok (x, true))
            (ok (l', done)) =
          ground arith in
        let (x, queued, same) = >>=-eq-ok _ _ accepted in
        let parts : (x ≡ l') × (true ≡ done) = ground arith in
        inr (sym parts.1, (t, e, allowed), rw (← parts.0) queued)
  ]
]

one_key :
    (t : Task) (a b : String) (r q : Role)
    → has_task_key a r t ≡ true
    → has_task_key b q t ≡ true
    → (a ≡ b) × (r ≡ q)
one_key t a b r q h k = ground (arith, eq_iff t.task_id a, eq_iff t.task_id b)

status_of_allowed :
    (now : ℕ) (status : Option TaskState) (columns : List Column) (t : Task)
    → is_terminal t.status ≡ true
    → is_refused t false status ≡ false
    → (updated now status columns t).status ≡ t.status
status_of_allowed now none columns t final allowed =
    status-assign_all columns (record t { updated_at = now })
status_of_allowed now (some s) columns t final allowed = ground arith

-- In a terminal state only a forced update changes the status: any other leaves it, whatever it
-- writes to other columns.
pub update_task-keeps_terminal :
    (now : ℕ) (id j : String) (r q : Role) (c : Change) (l l' : Ledger) (done : Bool) (t : Task)
    → c.force ≡ false
    → update_task now id r c l ≡ ok (l', done)
    → task j q l ≡ some t
    → is_terminal t.status ≡ true
    → (u : Task) × (task j q l' ≡ some u) × (u.status ≡ t.status)
update_task-keeps_terminal now id j r q c l l' done t free h found final =
    elim (update_task_cases now id r c l l' done h) [
      | inl (_, same, _) ↦ (t, rw same found, refl)
      | inr (_, (s, here, allowed), queued) ↦
          let u = changed (has_task_key id r) (updated now c.status c.columns) t in
          (
            u,
            task-queue_given now c.announce (write_task now id r c.status c.columns l) l' u j q
                queued (rw (task-write_task now id j r q c.status c.columns l, found) refl),
            elim (Bool-cases (has_task_key id r t)) [
              | inl mine ↦
                  let (same_id, same_role) =
                    one_key t id j r q mine
                      (find-holds (has_task_key j q) l.tasks t (unfold task in found)) in
                  let same : s ≡ t = ground (arith, found) in
                  rw mine (status_of_allowed now c.status c.columns t final (ground arith))
              | inr other ↦ rw other
            ],
          )
    ]
