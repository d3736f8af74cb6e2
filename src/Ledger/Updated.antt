-- ===== src/Ledger/Updated.antt =====
-- What an update of a task leaves in the tables (src/mutmuas/ledger.py: update_task), said by the values of
-- the columns and by what waits in the outbox.
use mutmuas.Prelude.{
  ℕ, String, ◌≡◌, refl, ap, sym, ◌∙◌, ◌⊎◌, inl, inr, Bool, true, false, Option, none, some, List,
  [], ◌∷◌, ◌++◌, arith, Option-cases, changed, find-holds,
}
use mutmuas.Result.{ok}
use mutmuas.Json.{Fields}
use mutmuas.Protocol.Types.{TaskState, is_terminal}
use mutmuas.Protocol.Envelope.{ArtifactRef, Envelope}
use mutmuas.Ledger.Rows.{Role, Task, Ledger, outbound, has_task_key}
use mutmuas.Ledger.Insert.{insert_message, outgoing_row}
use mutmuas.Ledger.Tasks.{
  task, Change, Column, set_result, set_result_status, set_result_draft, set_output_refs,
  set_last_message, assign, assign_all, with_status, write_task, queue_given, update_task,
  is_refused,
}
use mutmuas.Ledger.Delivery.{is_stored, waiting, waiting-queue, messages-queue}
use mutmuas.Ledger.Transitions.{updated, update_task_cases, task-write_task, task-queue_given}

-- The value of a column after changes in order: the last one for it, else the old one.
abbrev pub last_of : {A : Type 0} → (Column → Option A) → List Column → A → A
last_of pick [] old = old
last_of pick (c ∷ cs) old = last_of pick cs (elim (pick c) [ none ↦ old | some v ↦ v ])

abbrev pub result_in : Column → Option (Option Fields)
result_in (set_result r) = some (some r)
result_in _ = none

abbrev pub result_status_in : Column → Option (Option String)
result_status_in (set_result_status s) = some (some s)
result_status_in _ = none

abbrev pub result_draft_in : Column → Option (Option Fields)
result_draft_in (set_result_draft d) = some d
result_draft_in _ = none

abbrev pub output_refs_in : Column → Option (List ArtifactRef)
output_refs_in (set_output_refs refs) = some refs
output_refs_in _ = none

abbrev pub last_message_in : Column → Option (Option String)
last_message_in (set_last_message id) = some (some id)
last_message_in _ = none

abbrev pub status_after : Option TaskState → TaskState → TaskState
status_after none old = old
status_after (some s) old = s

-- A row after an update: the given columns, the time, and the rest as it was.
pub record IsWritten (now : ℕ) (status_ : Option TaskState) (columns : List Column) (t u : Task)
    : Type 0 where
  pub status : u.status ≡ status_after status_ t.status
  pub result : u.result ≡ last_of result_in columns t.result
  pub result_status : u.result_status ≡ last_of result_status_in columns t.result_status
  pub result_draft : u.result_draft ≡ last_of result_draft_in columns t.result_draft
  pub output_refs : u.output_refs ≡ last_of output_refs_in columns t.output_refs
  pub last_message : u.last_message ≡ last_of last_message_in columns t.last_message
  pub updated_at : u.updated_at ≡ now
  pub attempts : u.attempts ≡ t.attempts
  pub owner : u.owner ≡ t.owner
  pub requester : u.requester ≡ t.requester

-- The announced message waits behind all others; one whose id was taken changes no message.
abbrev pub IsAnnounced : Option Envelope → Ledger → Ledger → Type 0
IsAnnounced none l l' = l'.messages ≡ l.messages
IsAnnounced (some env) l l' =
    (is_stored env.message_id outbound l ≡ false → waiting l' ≡ waiting l ++ (env ∷ []))
    × (is_stored env.message_id outbound l ≡ true → l'.messages ≡ l.messages)

-- A change of the status of a finished task that is not forced.
abbrev pub IsTooLate : Change → Task → Type 0
IsTooLate c t =
    (is_terminal t.status ≡ true) × (c.force ≡ false) × ((s : TaskState) × (c.status ≡ some s))

module _ {A : Type 0} (f : Task → A) where
  column-assign_all :
      (pick : Column → Option A)
      → ((t : Task) (c : Column) → f (assign t c) ≡ elim (pick c) [ none ↦ f t | some v ↦ v ])
      → (cs : List Column) (t : Task) → f (assign_all cs t) ≡ last_of pick cs (f t)
  column-assign_all pick h [] t = refl
  column-assign_all pick h (c ∷ cs) t = column-assign_all pick h cs (assign t c) ∙ rw (h t c) refl

  kept-assign_all :
      ((t : Task) (c : Column) → f (assign t c) ≡ f t)
      → (cs : List Column) (t : Task) → f (assign_all cs t) ≡ f t
  kept-assign_all h [] t = refl
  kept-assign_all h (c ∷ cs) t = kept-assign_all h cs (assign t c) ∙ h t c

module _ (now : ℕ) (columns : List Column) where
  assigned-IsWritten :
      (o : Option TaskState) (t v : Task)
      → IsWritten now o [] t v
      → IsWritten now o columns t (assign_all columns v)
  assigned-IsWritten o t v w = record {
    status = kept-assign_all (λ (u : Task). u.status) (λ u c. ground arith) columns v ∙ w.status;
    result =
        column-assign_all (λ (u : Task). u.result) result_in (λ u c. ground arith) columns v
        ∙ ap (last_of result_in columns) w.result;
    result_status =
        column-assign_all (λ (u : Task). u.result_status) result_status_in (λ u c. ground arith)
          columns v
        ∙ ap (last_of result_status_in columns) w.result_status;
    result_draft =
        column-assign_all (λ (u : Task). u.result_draft) result_draft_in (λ u c. ground arith)
          columns v
        ∙ ap (last_of result_draft_in columns) w.result_draft;
    output_refs =
        column-assign_all (λ (u : Task). u.output_refs) output_refs_in (λ u c. ground arith) columns
          v
        ∙ ap (last_of output_refs_in columns) w.output_refs;
    last_message =
        column-assign_all (λ (u : Task). u.last_message) last_message_in (λ u c. ground arith)
          columns v
        ∙ ap (last_of last_message_in columns) w.last_message;
    updated_at =
        kept-assign_all (λ (u : Task). u.updated_at) (λ u c. ground arith) columns v ∙ w.updated_at;
    attempts =
        kept-assign_all (λ (u : Task). u.attempts) (λ u c. ground arith) columns v ∙ w.attempts;
    owner = kept-assign_all (λ (u : Task). u.owner) (λ u c. ground arith) columns v ∙ w.owner;
    requester =
        kept-assign_all (λ (u : Task). u.requester) (λ u c. ground arith) columns v ∙ w.requester;
  }

  with_status-IsWritten :
      (o : Option TaskState) (t : Task)
      → IsWritten now o [] t (with_status o (record t { updated_at = now }))
  with_status-IsWritten none t = record {
    status = refl;
    result = refl;
    result_status = refl;
    result_draft = refl;
    output_refs = refl;
    last_message = refl;
    updated_at = refl;
    attempts = refl;
    owner = refl;
    requester = refl;
  }
  with_status-IsWritten (some s) t = record {
    status = refl;
    result = refl;
    result_status = refl;
    result_draft = refl;
    output_refs = refl;
    last_message = refl;
    updated_at = refl;
    attempts = refl;
    owner = refl;
    requester = refl;
  }

  updated-IsWritten :
      (o : Option TaskState) (t : Task) → IsWritten now o columns t (updated now o columns t)
  updated-IsWritten o t = assigned-IsWritten o t _ (with_status-IsWritten o t)

is_stored-insert :
    (now : ℕ) (env : Envelope) (l : Ledger)
    → is_stored env.message_id outbound l ≡ true
    → (insert_message (outgoing_row now env l) l).0 ≡ l
unfolding insert_message
is_stored-insert now env l h = rw h refl

queue_given-IsAnnounced :
    (now : ℕ) (o : Option Envelope) (ts : List Task) (l l' : Ledger)
    → queue_given now o (record l { tasks = ts }) ≡ ok l'
    → IsAnnounced o l l'
queue_given-IsAnnounced now none ts l l' h =
    let same : record l { tasks = ts } ≡ l' = ground arith in
    ap (λ (m : Ledger). m.messages) (sym same)
queue_given-IsAnnounced now (some env) ts l l' h =
    let m = record l { tasks = ts } in
    (
      λ new. waiting-queue now env m l' new h,
      λ old.
          messages-queue now env m l' h
          ∙ ap (λ (k : Ledger). k.messages) (is_stored-insert now env m old),
    )

refused-IsTooLate : (t : Task) (c : Change) → is_refused t c.force c.status ≡ true → IsTooLate c t
refused-IsTooLate t c h = elim (Option-cases c.status) [
  | inl e ↦ absurd (ground arith)
  | inr (s, e) ↦ (ground arith, ground arith, (s, e))
]

allowed-not_late : (t : Task) (c : Change) → is_refused t c.force c.status ≡ false → ¬ IsTooLate c t
allowed-not_late t c h (final, free, (s, e)) = ground arith

written :
    (now : ℕ) (id j : String) (r q : Role) (c : Change) (l l' : Ledger) (t : Task)
    → queue_given now c.announce (write_task now id r c.status c.columns l) ≡ ok l'
    → task j q l ≡ some t
    → task j q l' ≡ some (changed (has_task_key id r) (updated now c.status c.columns) t)
written now id j r q c l l' t queued found =
    task-queue_given now c.announce (write_task now id r c.status c.columns l) l' _ j q queued
      (rw (task-write_task now id j r q c.status c.columns l, found) refl)

-- An update of a task that finds no row, or that comes too late, changes nothing and says so. Any other
-- writes its row, where each given column has the last value given for it, leaves every other row, and puts
-- the message that announces it behind all that wait, in the same step.
pub update_task_effect :
    (now : ℕ) (id : String) (r : Role) (c : Change) (l l' : Ledger) (done : Bool)
    → update_task now id r c l ≡ ok (l', done)
    → ((done ≡ false)
        × (l' ≡ l)
        × ((task id r l ≡ none) ⊎ ((t : Task) × (task id r l ≡ some t) × IsTooLate c t)))
      ⊎ ((done ≡ true)
          × ((t : Task) × (u : Task) × (task id r l ≡ some t)
              × (¬ IsTooLate c t)
              × (task id r l' ≡ some u)
              × IsWritten now c.status c.columns t u)
          × ((j : String) (q : Role) (v : Task)
              → task j q l ≡ some v
              → has_task_key id r v ≡ false
              → task j q l' ≡ some v)
          × IsAnnounced c.announce l l')
update_task_effect now id r c l l' done h = elim (update_task_cases now id r c l l' done h) [
  | inl (undone, same, inl missing) ↦ inl (undone, same, inl missing)
  | inl (undone, same, inr (t, e, refused)) ↦
      inl (undone, same, inr (t, e, refused-IsTooLate t c refused))
  | inr (is_done, (t, e, allowed), queued) ↦
      let mine = find-holds (has_task_key id r) l.tasks t (unfold task in e) in
      inr (
        is_done,
        (
          t,
          updated now c.status c.columns t,
          e,
          allowed-not_late t c allowed,
          rw mine at (written now id id r r c l l' t queued e),
          updated-IsWritten now c.columns c.status t,
        ),
        (λ j q v found other. rw other at (written now id j r q c l l' v queued found)),
        queue_given-IsAnnounced now c.announce _ l l' queued,
      )
]
