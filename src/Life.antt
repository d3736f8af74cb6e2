-- ===== src/Life.antt =====
-- The life of a node: any sequence of the daemon's turns (src/mutmuas/node.py), of the agents'
-- operations (src/mutmuas/tools.py) and of the hub's (src/mutmuas/hub.py), each run to its end or to
-- its exception, with whatever the clock, the bus, git and the processes answer.
use mutmuas.Prelude.{ℕ, String, ◌≡◌, refl, ◌⊎◌, inl, inr, Bool, true, Option, some, List, [], ◌∷◌}
use mutmuas.Json.{Json, Fields}
use mutmuas.Config.{AgentConfig}
use mutmuas.Protocol.Types.{MessageType, is_terminal}
use mutmuas.Protocol.Envelope.{ArtifactRef}
use mutmuas.Protocol.Bodies.{RequestOptions, ResultOptions}
use mutmuas.Ledger.Rows.{Role, Task}
use mutmuas.Ledger.Tasks.{task}
use mutmuas.Ledger.History.{Reach, Keeps, terminal_forever}
use mutmuas.Hub.State.{State, M}
use mutmuas.Node.Cards.{outbox_round}
use mutmuas.Hub.Requests.{request}
use mutmuas.Hub.Promise.{Promise}
use mutmuas.Hub.Refines.{by_steps}
use mutmuas.Ledger.Outlet.{is_unsent, never_forgotten}
use mutmuas.Hub.Published.{nothing_lost, IsPublished, is_in_stream}
use mutmuas.Tools.Inbox.{inbox}
use mutmuas.Tools.Requests.{send_request, publish_artifact}
use mutmuas.Tools.InboxSteps.{
  inbox-Runs, send_request-Runs, publish_artifact-Runs, outbox_round-Runs,
}
use mutmuas.Result.{Result}
use mutmuas.Ledger.Inbox.{Since}
use mutmuas.Hub.OwnerSteps.{request-Runs}
use mutmuas.Node.Receive.{receive_one}
use mutmuas.Node.Dispatch.{dispatch}
use mutmuas.Node.Execute.{RunTexts, Worktree, RunEnd, begin, conclude}
use mutmuas.Node.Results.{GitSummary}
use mutmuas.Node.Recover.{recover}
use mutmuas.Node.Steps.{receive_one-Runs}
use mutmuas.Node.RunSteps.{dispatch-Runs, begin-Runs, conclude-Runs, recover-Runs}
use mutmuas.Tools.{
  accept_task, reject_task, report_progress, submit_result, ask_question, answer, cancel_task,
}
use mutmuas.Tools.Steps.{
  accept_task-Runs, reject_task-Runs, report_progress-Runs, submit_result-Runs, ask_question-Runs,
  answer-Runs, cancel_task-Runs,
}

-- What happens at a node.
pub data Event : Type 0 where
  delivery : (addr subject : String) → Option Json → Event
  round : AgentConfig → String → Event
  start : AgentConfig → String → RunTexts → Worktree → Event
  exit : AgentConfig → String → RunTexts → Bool → Option GitSummary → RunEnd → Event
  restart : Event
  reconnect : Event
  requests :
      Option String
      → String
      → Fields
      → List ArtifactRef
      → Option String
      → String
      → Option String
      → Event
  accepts : (me id : String) → Event
  rejects : (me id reason : String) → Event
  reports : Option String → (me message : String) → (id state : Option String) → Event
  submits :
      Option String
      → (me status summary : String) → Option String
      → ResultOptions
      → List Json
      → Event
  asks : (me id question : String) → Event
  answers : (me id text : String) → Event
  cancels : (me id reason : String) → Event
  looks : String → Bool → ℕ → Bool → List MessageType → Since → Event
  delegates :
      Option String
      → Option Bool
      → (me to objective reason kind : String) → RequestOptions
      → List Json
      → Option String
      → String
      → Event
  publishes :
      (String → Result ArtifactRef)
      → Option String
      → (me name : String) → (key id : Option String) → Event

abbrev after : {A : Type 0} → M A → State → State
after m s = (m s).1

unfoldable pub happen : Event → State → State
unfolding inbox send_request publish_artifact receive_one dispatch begin conclude recover
    outbox_round request accept_task reject_task report_progress submit_result ask_question answer
    cancel_task
happen (delivery addr subject raw) s = after (receive_one addr subject raw) s
happen (round agent addr) s = after (dispatch agent addr) s
happen (start agent id texts w) s = after (begin agent id texts w) s
happen (exit agent id texts wt git e) s = after (conclude agent id texts wt git e) s
happen restart s = after recover s
happen reconnect s = after outbox_round s
happen (requests who to body refs parent priority id) s =
    after (request who to body refs parent priority id) s
happen (accepts me id) s = after (accept_task me id) s
happen (rejects me id reason) s = after (reject_task me id reason) s
happen (reports current me message id state) s =
    after (report_progress current me message id state) s
happen (submits current me status summary id o artifacts) s =
    after (submit_result current me status summary id o artifacts) s
happen (asks me id question) s = after (ask_question me id question) s
happen (answers me id text) s = after (answer me id text) s
happen (cancels me id reason) s = after (cancel_task me id reason) s
happen (looks me b limit peek types since) s = after (inbox me b limit peek types since) s
happen (delegates current card me to objective reason kind o artifacts parent priority) s =
    after (send_request current card me to objective reason kind o artifacts parent priority) s
happen (publishes store current me name key id) s =
    after (publish_artifact store current me name key id) s

unfoldable pub live : List Event → State → State
unfolding happen
live [] s = s
live (e ∷ rest) s = live rest (happen e s)

-- A promise that the leaves keep is kept by every event.
happen-Runs : (P : Promise) (e : Event) (s : State) → P.rel.holds s (happen e s)
unfolding happen
happen-Runs P (delivery addr subject raw) s = (receive_one-Runs P addr subject raw).at s
happen-Runs P (round agent addr) s = (dispatch-Runs P agent addr).at s
happen-Runs P (start agent id texts w) s = (begin-Runs P agent id texts w).at s
happen-Runs P (exit agent id texts wt git e) s = (conclude-Runs P agent id texts wt git e).at s
happen-Runs P restart s = (recover-Runs P).at s
happen-Runs P reconnect s = (outbox_round-Runs P).at s
happen-Runs P (requests who to body refs parent priority id) s =
    (request-Runs P who to body refs parent priority id).at s
happen-Runs P (accepts me id) s = (accept_task-Runs P me id).at s
happen-Runs P (rejects me id reason) s = (reject_task-Runs P me id reason).at s
happen-Runs P (reports current me message id state) s =
    (report_progress-Runs P current me message id state).at s
happen-Runs P (submits current me status summary id o artifacts) s =
    (submit_result-Runs P current me status summary id o artifacts).at s
happen-Runs P (asks me id question) s = (ask_question-Runs P me id question).at s
happen-Runs P (answers me id text) s = (answer-Runs P me id text).at s
happen-Runs P (cancels me id reason) s = (cancel_task-Runs P me id reason).at s
happen-Runs P (looks me b limit peek types since) s =
    (inbox-Runs P me b limit peek types since).at s
happen-Runs P (delegates current card me to objective reason kind o artifacts parent priority) s =
    (send_request-Runs P current card me to objective reason kind o artifacts parent priority).at s
happen-Runs P (publishes store current me name key id) s =
    (publish_artifact-Runs P store current me name key id).at s

pub live-Runs : (P : Promise) (events : List Event) (s : State) → P.rel.holds s (live events s)
unfolding live
live-Runs P [] s = P.rel.quiet s s refl refl
live-Runs P (e ∷ rest) s = P.rel.chain (happen-Runs P e s) (live-Runs P rest (happen e s))

-- The node refines the ledger's history: any sequence of events at a node changes its ledger only by
-- the operations of `Ledger`, none of them a forced update.
pub live-Reach : (events : List Event) (s : State) → Reach s.ledger (live events s).ledger
live-Reach events s = live-Runs by_steps events s

-- A task that is in a terminal state at a node keeps its row in that state, after any sequence of
-- events at the node.
pub closed_for_life :
    (events : List Event) (s : State) (id : String) (r : Role) (t : Task)
    → task id r s.ledger ≡ some t
    → is_terminal t.status ≡ true
    → Keeps id r t.status (live events s).ledger
closed_for_life events s id r t found final =
    terminal_forever id r t s.ledger (live events s).ledger found final (live-Reach events s)

-- The promise of the outbox. If every outgoing message that is marked as sent is in the server's
-- stream, then the same holds after any sequence of events at the node.
pub live-IsPublished :
    (events : List Event) (s : State) → IsPublished s → IsPublished (live events s)
live-IsPublished events s sound = live-Runs nothing_lost events s sound

-- No message is lost. A message that waits in the outbox still waits, or is in the server's stream,
-- after any sequence of events at the node, if every message that was marked as sent at the beginning
-- was in the stream.
pub never_lost :
    (events : List Event) (s : State) (id : String)
    → IsPublished s
    → is_unsent id s.ledger ≡ true
    → (is_unsent id (live events s).ledger ≡ true) ⊎ (is_in_stream id (live events s) ≡ true)
never_lost events s id sound waits =
    elim (never_forgotten id s.ledger (live events s).ledger (live-Reach events s) waits) [
      | inl still ↦ inl still
      | inr marked ↦ inr (live-IsPublished events s sound id marked)
    ]
