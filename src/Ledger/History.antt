-- ===== src/Ledger/History.antt =====
-- Every sequence of ledger operations, by the daemon, the CLI and the MCP server of a node in any
-- order: each is one transaction, so they interleave as whole steps.
use mutmuas.Prelude.{
  ℕ, suc, String, ◌≡◌, refl, ◌∙◌, Bool, true, false, Option, some, List, update_where, arith,
  find-update_where, changed,
}
use mutmuas.Result.{ok}
use mutmuas.Protocol.Types.{MessageType, TaskState, is_terminal}
use mutmuas.Protocol.Envelope.{Envelope}
use mutmuas.Ledger.Rows.{MessageState, Role, owner, Task, Ledger, has_task_key, is_settled}
use mutmuas.Ledger.Outbox.{queue, mark_sent, mark_send_error}
use mutmuas.Ledger.Inbox.{ingest, mark_handled, mark_seen, unseen, Since}
use mutmuas.Ledger.Tasks.{task, Change, update_task, create_owned_task, bump_attempts}
use mutmuas.Ledger.Transitions.{task-queue, task-insert_task, update_task-keeps_terminal}

-- The operations that write, with a time, but for `mark_sent`; and updates that are not forced (the
-- program forces none).
pub data Local (l l' : Ledger) : Type 0 where
  queues : (now : ℕ) (env : Envelope) → queue now env l ≡ ok l' → Local l l'
  fails : (now : ℕ) (id error : String) → mark_send_error now id error l ≡ l' → Local l l'
  ingests : (now : ℕ) (env : Envelope) → (ingest now env l).0 ≡ l' → Local l l'
  handles :
      (now : ℕ) (id : String) (s : MessageState) (e : Option String)
      → is_settled s ≡ true
      → mark_handled now id s e l ≡ l'
      → Local l l'
  reads :
      (a : String) (limit : ℕ) (mark : Bool) (types : List MessageType) (since : Since)
      → (unseen a limit mark types since l).0 ≡ l'
      → Local l l'
  hides : (id : String) → mark_seen id l ≡ l' → Local l l'
  creates :
      (now : ℕ) (req : Envelope) (b : Bool) → create_owned_task now req l ≡ ok (l', b) → Local l l'
  updates :
      (now : ℕ) (id : String) (r : Role) (c : Change) (b : Bool)
      → c.force ≡ false
      → update_task now id r c l ≡ ok (l', b)
      → Local l l'
  bumps : (now : ℕ) (id : String) (n : ℕ) → bump_attempts now id l ≡ ok (l', n) → Local l l'

-- A step of the ledger.
pub data Step (l l' : Ledger) : Type 0 where
  local : Local l l' → Step l l'
  sends : (now : ℕ) (id : String) → mark_sent now id l ≡ l' → Step l l'

pub data Reach (l : Ledger) : Ledger → Type 0 where
  here : Reach l l
  next : {m n : Ledger} → Reach l m → Step m n → Reach l n

-- A row with the status of another.
abbrev pub Keeps : String → Role → TaskState → Ledger → Type 0
Keeps id r s l = (u : Task) × (task id r l ≡ some u) × (u.status ≡ s)

module _ (id : String) (r : Role) (s : TaskState) (final : is_terminal s ≡ true) where
  same_tasks : (l l' : Ledger) → l.tasks ≡ l'.tasks → Keeps id r s l → Keeps id r s l'
  unfolding task
  same_tasks l l' e (u, found, same) = (u, rw (← e) found, same)

  bump-Keeps :
      (now : ℕ) (j : String) (n : ℕ) (l l' : Ledger)
      → bump_attempts now j l ≡ ok (l', n)
      → Keeps id r s l
      → Keeps id r s l'
  unfolding bump_attempts
  bump-Keeps now j n l l' h (u, found, same) =
      let f = λ (t : Task). record t { attempts = suc t.attempts; updated_at = now } in
      let p = has_task_key j owner in
      let bumped : l' ≡ record l { tasks = update_where p f l.tasks } = ground arith in
      (
        changed p f u,
        rw bumped (find-update_where p (has_task_key id r) f l.tasks (λ t. refl) ∙ rw found refl),
        ground (arith, same),
      )

  Local-Keeps : {l l' : Ledger} → Local l l' → Keeps id r s l → Keeps id r s l'
  Local-Keeps {l} {l'} (queues now env h) (u, found, same) =
      (u, task-queue now env l l' u id r h found, same)
  Local-Keeps {l} {l'} (fails now i e h) k =
      same_tasks l l' (unfold mark_send_error in ground arith) k
  Local-Keeps {l} {l'} (ingests now env h) k = same_tasks l l' (unfold ingest in ground arith) k
  Local-Keeps {l} {l'} (handles now i st e settled h) k =
      same_tasks l l' (unfold mark_handled in ground arith) k
  Local-Keeps {l} {l'} (reads a limit mark types since h) k =
      same_tasks l l' (unfold unseen in ground arith) k
  Local-Keeps {l} {l'} (hides i h) k = same_tasks l l' (unfold mark_seen in ground arith) k
  Local-Keeps {l} {l'} (creates now req b h) (u, found, same) = (
    u,
    unfold create_owned_task in
        task-insert_task now req owner req.to TaskState.pending l (l', b) u id r h found,
    same,
  )
  Local-Keeps {l} {l'} (updates now i q c b free h) (u, found, same) =
      let (v, there, kept) =
        update_task-keeps_terminal now i id q r c l l' b u free h found (rw same final) in
      (v, there, kept ∙ same)
  Local-Keeps {l} {l'} (bumps now i n h) k = bump-Keeps now i n l l' h k

  Step-Keeps : {l l' : Ledger} → Step l l' → Keeps id r s l → Keeps id r s l'
  Step-Keeps (local step) k = Local-Keeps step k
  Step-Keeps {l} {l'} (sends now i h) k = same_tasks l l' (unfold mark_sent in ground arith) k

-- A task in a terminal state stays in it, whatever the program does with the ledger afterwards.
pub terminal_forever :
    (id : String) (r : Role) (t : Task) (l l' : Ledger)
    → task id r l ≡ some t
    → is_terminal t.status ≡ true
    → Reach l l'
    → Keeps id r t.status l'
terminal_forever id r t l l' found final here = (t, found, refl)
terminal_forever id r t l l' found final (next {m = m} reach step) =
    Step-Keeps id r t.status final step (terminal_forever id r t l m found final reach)
