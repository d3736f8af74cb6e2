-- ===== src/Node/Execute.antt =====
-- The run of an accepted task (src/mutmuas/node.py: _execute). The process runs between `begin` and
-- `conclude`; other steps of the node may come between them.
use Prim.Native.String.{◌++◌ as ◌⧺◌}
use mutmuas.Prelude.{
  ℕ, String, Bool, true, false, not, ◌&&◌, Option, none, some, List, [], ◌∷◌, any, select, ltb,
  ◌==◌, if◌then◌else◌,
}
use mutmuas.Result.{Result, ok, type_error}
use mutmuas.Exec.{◌>>=◌, ◌>>◌, gets, modify, pure, lift}
use mutmuas.Json.{Json, null, str, arr, cons, nil, Fields, get, get_or}
use mutmuas.Protocol.Types.{MessageType, TaskState, is_terminal}
use mutmuas.Protocol.Envelope.{ArtifactRef, Envelope}
use mutmuas.Protocol.Bodies.{result_body}
use mutmuas.Config.{AgentConfig}
use mutmuas.Ledger.Rows.{Task, owner}
use mutmuas.Ledger.Inbox.{request_envelope}
use mutmuas.Ledger.Tasks.{task, update_task, bump_attempts, set_result_draft}
use mutmuas.Hub.State.{State, M, transaction}
use mutmuas.Hub.Owner.{owner_transition, finish}
use mutmuas.Hub.Requests.{or_raise}
use mutmuas.Node.Requests.{notify, sliced}
use mutmuas.Node.Results.{RunOutcome, GitSummary, result_from, attach_git}

-- Texts that the messages of a run are made of.
pub record RunTexts : Type 0 where
  pub attempts : String
  pub timeout : String
  pub started : String
  pub git_error : String

abbrev no_options : List String → Json
no_options texts = elim texts [ [] ↦ null | t ∷ _ ↦ arr (cons (str t) nil) ]

-- hub.finish(task_id, result_body("failed", summary, limitations=...))
unfoldable pub fail : String → String → List String → M Bool
unfolding finish result_body
fail task_id summary limitations = do
  body ← lift (
      result_body "failed" summary (record {
        outputs = null;
        evidence = null;
        limitations = no_options limitations;
        follow_up = null;
      }))
  finish task_id body []

-- What git answers when a worktree is asked for.
pub data Worktree : Type 0 where
  created : Worktree
  refused : Worktree

-- request.body.get("kind") == "code" and agent.repo
abbrev pub is_code : Envelope → AgentConfig → Bool
is_code request agent =
    elim (get request.body "kind") [ str s ↦ s == "code" | _ ↦ false ] && not (agent.repo == "")

-- Whether the process is to be started, and whether it has a worktree.
pub data Begun : Type 0 where
  starts : Bool → Begun
  stops : Begun

abbrev pub start : String → RunTexts → Bool → M Begun
start task_id texts wt = do
  owner_transition task_id TaskState.running (str texts.started) MessageType.update none
  pure (starts wt)

abbrev pub prepare : String → RunTexts → Bool → Worktree → M Begun
prepare task_id texts false w = start task_id texts false
prepare task_id texts true created = start task_id texts true
prepare task_id texts true refused = do
  fail task_id ("could not create worktree: " ⧺ texts.git_error) []
  pure stops

abbrev pub run_attempt : AgentConfig → String → RunTexts → Worktree → ℕ → M Begun
run_attempt agent task_id texts w attempt =
    if ltb agent.max_attempts attempt
    then (do
      fail task_id
          ("gave up after " ⧺ (texts.attempts ⧺ " attempt(s); the agent process kept dying"))
          ("see node log / runs/ directory on the owner node" ∷ [])
      pure stops)
    else (do
      found ← gets (λ (s : State). request_envelope task_id s.ledger)
      request ← lift found
      transaction (λ now l.
          update_task now task_id owner
            (record {
              status = none;
              force = false;
              announce = none;
              columns = set_result_draft none ∷ [];
            })
            l)
      prepare task_id texts (is_code request agent) w)

abbrev pub begin_found : AgentConfig → String → RunTexts → Worktree → Option Task → M Begun
begin_found agent task_id texts w none = pure stops
begin_found agent task_id texts w (some t) = if is_terminal t.status then pure stops else (do
  attempt ← transaction (λ now l. bump_attempts now task_id l)
  run_attempt agent task_id texts w attempt)

-- `_execute` up to the start of the process.
unfoldable pub begin : AgentConfig → String → RunTexts → Worktree → M Begun
unfolding owner_transition fail
begin agent task_id texts w = do
  found ← gets (λ (s : State). task task_id owner s.ledger)
  begin_found agent task_id texts w found

-- How the process ends: by itself, at its deadline, by a cancellation of the runner, or with an
-- exception of the runtime.
pub data RunEnd : Type 0 where
  finished : RunOutcome → RunEnd
  timed_out : RunEnd
  interrupted : RunEnd
  crashed : String → RunEnd

-- A runner that is interrupted with no cancellation requested passes the CancelledError on: the
-- daemon is stopping, and the task is resumed at its next start.
pub data Concluded : Type 0 where
  done : Concluded
  passed_on : Concluded

abbrev is_blocked : TaskState → Bool
is_blocked TaskState.blocked = true
is_blocked _ = false

abbrev has_draft : Option Fields → Bool
has_draft none = false
has_draft (some Fields.end) = false
has_draft (some (Fields.field _ _ _)) = true

abbrev pub attached :
    Bool
    → RunTexts
    → Option GitSummary
    → Fields × List ArtifactRef
    → Result (Fields × List ArtifactRef)
attached true texts git (body, refs) = attach_git texts.git_error git body refs
attached false texts git (body, refs) = ok (body, refs)

abbrev text_or_empty : Json → String
text_or_empty (str s) = s
text_or_empty _ = ""

abbrev pub deliver :
    AgentConfig → String → RunTexts → Bool → Option GitSummary → RunOutcome → Task → M Concluded
deliver agent task_id texts wt git outcome current = do
  r ← lift (result_from current.result_draft outcome)
  r' ← lift (attached wt texts git r)
  finish task_id r'.0 r'.1
  summary ← lift (sliced (get_or r'.0 "summary" (str "")))
  notify agent.notify current.owner task_id (
      "FYI: "
      ⧺ (current.owner
          ⧺ (" finished "
              ⧺ (task_id
                  ⧺ (" for "
                      ⧺ (current.requester
                          ⧺ (" (" ⧺ (text_or_empty (get r'.0 "status") ⧺ ("): " ⧺ summary)))))))))
  pure done

-- The end of a run that the process has reached: a task that the agent has closed, or has reported
-- as blocked with nothing to deliver, is left alone.
abbrev pub delivered :
    AgentConfig → String → RunTexts → Bool → Option GitSummary → RunOutcome → Task → M Concluded
delivered agent task_id texts wt git outcome current =
    if is_terminal current.status
    then pure done
    else if is_blocked current.status && not (has_draft current.result_draft)
    then pure done
    else deliver agent task_id texts wt git outcome current

abbrev is_requested : String → State → Bool
is_requested task_id s = any (λ id. id == task_id) s.cancel_requested

abbrev pub discard : String → State → State
discard task_id s = record s {
  cancel_requested = select (λ id. not (id == task_id)) s.cancel_requested;
}

abbrev pub close_cancelled : String → M Concluded
close_cancelled task_id = do
  modify (discard task_id)
  owner_transition task_id TaskState.cancelled (str "cancelled by requester; process stopped")
      MessageType.update none
  pure done

abbrev pub concluded :
    AgentConfig → String → RunTexts → Bool → Option GitSummary → RunEnd → M Concluded
concluded agent task_id texts wt git (finished outcome) = do
  found ← gets (λ (s : State). task task_id owner s.ledger)
  current ← or_raise found type_error
  delivered agent task_id texts wt git outcome current
concluded agent task_id texts wt git timed_out = do
  fail task_id ("timed out after " ⧺ (texts.timeout ⧺ "s"))
      ("process was killed at the deadline" ∷ [])
  pure done
concluded agent task_id texts wt git interrupted = do
  asked ← gets (is_requested task_id)
  if asked then close_cancelled task_id else pure passed_on
concluded agent task_id texts wt git (crashed e) = do
  fail task_id ("runtime error: " ⧺ e) []
  pure done

-- `_execute` from the end of the process on.
unfoldable pub conclude :
    AgentConfig → String → RunTexts → Bool → Option GitSummary → RunEnd → M Concluded
unfolding owner_transition finish fail notify result_from attach_git
conclude agent task_id texts wt git e = concluded agent task_id texts wt git e
