-- ===== src/Hub/State.antt =====
-- What a node holds (src/mutmuas/hub.py, node.py), and what it reads from outside: the clock, fresh
-- ids, and how each call of the message bus ends.
use mutmuas.Prelude.{ℕ, suc, String, Bool, Option, List}
use mutmuas.Result.{Result, ok, err}
use mutmuas.Exec.{Exec, ◌>>=◌, gets, modify}
use mutmuas.Config.{NodeConfig}
use mutmuas.Protocol.Envelope.{Envelope}
use mutmuas.Ledger.Rows.{Ledger, Task, Message}

-- How a publication ends: acknowledged; failed before the server stored the message; or stored,
-- with the acknowledgement lost.
pub data Outcome : Type 0 where
  acked lost unacked : Outcome

-- What the environment answers. Each question is asked with a number of its own, so that any
-- sequence of answers is possible.
pub record World : Type 0 where
  pub time : ℕ → ℕ
  pub iso_time : ℕ → String
  pub new_message_id : ℕ → String
  pub new_conversation_id : ℕ → String
  pub new_task_id : ℕ → String
  pub connected : ℕ → Bool
  pub outcome : ℕ → Outcome
  pub error_text : ℕ → String
  pub alias_of : ℕ → String → Option String

-- The record of a task in the shared store: the owner's row and the messages about the task.
pub record TaskRecord : Type 0 where
  pub key : String
  pub task : Task
  pub thread : List Message

pub record State : Type 0 where
  pub cfg : NodeConfig
  pub world : World
  pub asked : ℕ
  pub ledger : Ledger
  -- the subjects and messages that the server has stored, in order, also those that have expired since
  pub stream : List (String × Envelope)
  pub records : List TaskRecord
  -- the daemon's: tasks that wait for a runner, those queued or running, the runners at work, and
  -- the cancellations that a runner has not seen yet
  pub queue : List (String × String)
  pub queued : List (String × String)
  pub running : List String
  pub cancel_requested : List String

abbrev pub M : Type 0 → Type 0
M A = Exec State A

-- The number of a question.
abbrev pub ask : M ℕ
ask s = (ok s.asked, record s { asked = suc s.asked })

-- now_iso() of the ledger's columns
abbrev pub now : M ℕ
now = do k ← ask; gets (λ (s : State). s.world.time k)

-- An operation of the ledger that cannot fail.
abbrev pub on_ledger : (ℕ → Ledger → Ledger) → M (Unit {0})
on_ledger f = do t ← now; modify (λ (s : State). record s { ledger = f t s.ledger })

-- A transaction: the new ledger and a value, or an error and the ledger as it was.
abbrev pub commit : {A : Type 0} → Result (Ledger × A) → M A
commit (ok (l, a)) s = (ok a, record s { ledger = l })
commit (err e) s = (err e, s)

abbrev pub transaction : {A : Type 0} → (ℕ → Ledger → Result (Ledger × A)) → M A
transaction f = do t ← now; r ← gets (λ (s : State). f t s.ledger); commit r

abbrev pub with_unit : Result Ledger → Result (Ledger × Unit {0})
with_unit (ok l) = ok (l, tt)
with_unit (err e) = err e
