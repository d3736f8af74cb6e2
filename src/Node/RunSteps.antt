-- ===== src/Node/RunSteps.antt =====
-- The dispatcher, the runs and the recovery of src/mutmuas/node.py, by the rules of Hub/Runs.
use mutmuas.Prelude.{String, refl, Bool, true, false, Option, none, some, List, [], ◌∷◌}
use mutmuas.Config.{AgentConfig}
use mutmuas.Exec.{modify, gets, lift}
use mutmuas.Protocol.Types.{MessageType, TaskState}
use mutmuas.Protocol.Envelope.{Envelope}
use mutmuas.Ledger.Rows.{Task, dropped}
use mutmuas.Ledger.History.{handles, hides, bumps}
use mutmuas.Ledger.Inbox.{mark_seen}
use mutmuas.Ledger.Tasks.{bump_attempts}
use mutmuas.Hub.State.{State, transaction}
use mutmuas.Hub.Promise.{Promise, Runs-modify, Runs-on_ledger, Runs-transaction, update-Runs}
use mutmuas.Hub.Runs.{Runs, Runs-bind, Runs-gets, Runs-lift, run_rules}
use mutmuas.Hub.Owner.{publish_task_record}
use mutmuas.Hub.Sending.{flush_outbox}
use mutmuas.Hub.Steps.{flush_outbox-Runs}
use mutmuas.Hub.OwnerSteps.{
  or_raise-Runs, owner_transition-Runs, publish_task_record-Runs, finish-Runs,
}
use mutmuas.Node.Steps.{on_request-Runs, notify-Runs, accept_task-Runs, enqueue-Runs}
use mutmuas.Node.Requests.{Disposition}
use mutmuas.Node.Dispatch.{
  cancel_open, cancel_found, on_cancel, reply_found, on_reply, handle_type, handle, state_of,
  state_of_settled, mark, dispatch_one, dispatch_all, dispatch,
}
use mutmuas.Node.Execute.{
  RunTexts, Worktree, created, refused, fail, start, prepare, begin_found, begin, deliver,
  delivered, concluded, discard, conclude, RunEnd, finished, timed_out, interrupted, crashed,
}
use mutmuas.Node.Results.{RunOutcome, GitSummary}
use mutmuas.Node.Recover.{reopen, resume, resume_all, publish_all, recover, agent_cfg}

module _ (P : Promise) where
  hide-Runs :
      (id : String)
      → Runs P.rel (modify (λ (s : State). record s { ledger = mark_seen id s.ledger }))
  hide-Runs id = record {
    at = λ s. P.local s (record s { ledger = mark_seen id s.ledger }) (hides id refl) refl;
  }

  request_cancel-Runs :
      (id : String)
      → Runs P.rel (modify (λ (s : State). record s { cancel_requested = id ∷ s.cancel_requested }))
  request_cancel-Runs id = Runs-modify P _ (λ s. refl) (λ s. refl)

  cancel_open-Runs : (env : Envelope) (t : Task) → Runs P.rel (cancel_open env t)
  cancel_open-Runs env t =
      search (run_rules, hide-Runs, request_cancel-Runs, owner_transition-Runs P) depth 24

  cancel_found-Runs : (env : Envelope) (o : Option Task) → Runs P.rel (cancel_found env o)
  cancel_found-Runs env none = search (run_rules)
  cancel_found-Runs env (some t) = search (run_rules, cancel_open-Runs) depth 12

  on_cancel-Runs : (env : Envelope) → Runs P.rel (on_cancel env)
  unfolding on_cancel
  on_cancel-Runs env = search (run_rules, cancel_found-Runs) depth 12

  reply_found-Runs : (env : Envelope) (o : Option Task) → Runs P.rel (reply_found env o)
  reply_found-Runs env none = search (run_rules)
  reply_found-Runs env (some t) = search (run_rules, update-Runs P) depth 16

  on_reply-Runs : (env : Envelope) → Runs P.rel (on_reply env)
  unfolding on_reply
  on_reply-Runs env = search (run_rules, reply_found-Runs) depth 12

  handle_type-Runs :
      (t : MessageType) (agent : AgentConfig) (env : Envelope)
      → Runs P.rel (handle_type t agent env)
  handle_type-Runs MessageType.request agent env = on_request-Runs P agent env
  handle_type-Runs MessageType.cancel agent env = on_cancel-Runs env
  handle_type-Runs MessageType.answer agent env = search (run_rules)
  handle_type-Runs _ agent env = on_reply-Runs env

  pub handle-Runs : (agent : AgentConfig) (env : Envelope) → Runs P.rel (handle agent env)
  unfolding handle
  handle-Runs agent env = handle_type-Runs env.type agent env

  mark-Runs :
      (env : Envelope) (d : Disposition) (e : Option String) → Runs P.rel (mark env (state_of d) e)
  mark-Runs env d e =
      Runs-on_ledger P _
        (λ t l. (handles t env.message_id (state_of d) e (state_of_settled d) refl))

  mark_dropped-Runs : (env : Envelope) (e : Option String) → Runs P.rel (mark env dropped e)
  mark_dropped-Runs env e =
      Runs-on_ledger P _ (λ t l. (handles t env.message_id dropped e refl refl))

  pub dispatch_one-Runs :
      (agent : AgentConfig) (env : Envelope) → Runs P.rel (dispatch_one agent env)
  dispatch_one-Runs agent env =
      search (run_rules, handle-Runs, mark-Runs, mark_dropped-Runs) depth 20

  pub dispatch_all-Runs :
      (agent : AgentConfig) (envs : List Envelope) → Runs P.rel (dispatch_all agent envs)
  dispatch_all-Runs agent [] = search (run_rules)
  dispatch_all-Runs agent (env ∷ envs) =
      Runs-bind (dispatch_one agent env) _ (dispatch_one-Runs agent env)
        (λ _. dispatch_all-Runs agent envs)

  pub dispatch-Runs : (agent : AgentConfig) (addr : String) → Runs P.rel (dispatch agent addr)
  unfolding dispatch
  dispatch-Runs agent addr = search (run_rules, dispatch_all-Runs) depth 12

  fail-Runs : (id summary : String) (limits : List String) → Runs P.rel (fail id summary limits)
  unfolding fail
  fail-Runs id summary limits = search (run_rules, finish-Runs P) depth 12

  start-Runs : (id : String) (texts : RunTexts) (wt : Bool) → Runs P.rel (start id texts wt)
  start-Runs id texts wt = search (run_rules, owner_transition-Runs P) depth 12

  prepare-Runs :
      (id : String) (texts : RunTexts) (wt : Bool) (w : Worktree)
      → Runs P.rel (prepare id texts wt w)
  prepare-Runs id texts false w = start-Runs id texts false
  prepare-Runs id texts true created = start-Runs id texts true
  prepare-Runs id texts true refused = search (run_rules, fail-Runs) depth 12

  bump-Runs : (id : String) → Runs P.rel (transaction (λ now l. bump_attempts now id l))
  bump-Runs id = Runs-transaction P _ (λ t l l' n h. (bumps t id n h))

  begin_found-Runs :
      (agent : AgentConfig) (id : String) (texts : RunTexts) (w : Worktree) (o : Option Task)
      → Runs P.rel (begin_found agent id texts w o)
  begin_found-Runs agent id texts w none = search (run_rules)
  begin_found-Runs agent id texts w (some t) =
      search (run_rules, bump-Runs, fail-Runs, update-Runs P, prepare-Runs) depth 24

  pub begin-Runs :
      (agent : AgentConfig) (id : String) (texts : RunTexts) (w : Worktree)
      → Runs P.rel (begin agent id texts w)
  unfolding begin
  begin-Runs agent id texts w = search (run_rules, begin_found-Runs) depth 12

  discard-Runs : (id : String) → Runs P.rel (modify (discard id))
  discard-Runs id = Runs-modify P (discard id) (λ s. refl) (λ s. refl)

  module _ (agent : AgentConfig) (id : String) (texts : RunTexts) (wt : Bool)
      (git : Option GitSummary) where
    deliver-Runs : (o : RunOutcome) (t : Task) → Runs P.rel (deliver agent id texts wt git o t)
    deliver-Runs o t = search (run_rules, finish-Runs P, notify-Runs P) depth 24

    delivered-Runs : (o : RunOutcome) (t : Task) → Runs P.rel (delivered agent id texts wt git o t)
    delivered-Runs o t = search (run_rules, deliver-Runs) depth 12

    concluded-Runs : (e : RunEnd) → Runs P.rel (concluded agent id texts wt git e)
    concluded-Runs (finished o) = search (run_rules, or_raise-Runs P, delivered-Runs) depth 12
    concluded-Runs timed_out = search (run_rules, fail-Runs) depth 12
    concluded-Runs interrupted = search (run_rules, discard-Runs, owner_transition-Runs P) depth 20
    concluded-Runs (crashed e) = search (run_rules, fail-Runs) depth 12

    pub conclude-Runs : (e : RunEnd) → Runs P.rel (conclude agent id texts wt git e)
    unfolding conclude
    conclude-Runs e = concluded-Runs e

  reopen-Runs : (node : String) (t : Task) (s : TaskState) → Runs P.rel (reopen node t s)
  reopen-Runs node t TaskState.running = owner_transition-Runs P _ _ _ _ _
  reopen-Runs node t TaskState.pending = accept_task-Runs P t.task_id
  reopen-Runs node t _ = search (run_rules)

  resume-Runs : (node : String) (t : Task) (o : Option AgentConfig) → Runs P.rel (resume node t o)
  resume-Runs node t none = search (run_rules)
  resume-Runs node t (some a) = search (run_rules, reopen-Runs, enqueue-Runs P) depth 12

  resume_all-Runs : (ts : List Task) → Runs P.rel (resume_all ts)
  resume_all-Runs [] = search (run_rules)
  resume_all-Runs (t ∷ ts) =
      let rest = resume_all-Runs ts in
      Runs-bind (gets (λ (s : State). s.cfg)) _ (Runs-gets _) (λ c.
        Runs-bind (lift (agent_cfg c t.owner)) _ (Runs-lift _)
          (λ a. Runs-bind (resume c.node t a) _ (resume-Runs c.node t a) (λ _. rest)))

  publish_all-Runs : (ts : List Task) → Runs P.rel (publish_all ts)
  publish_all-Runs [] = search (run_rules)
  publish_all-Runs (t ∷ ts) =
      Runs-bind (publish_task_record t.task_id) _ (publish_task_record-Runs P t.task_id)
        (λ _. publish_all-Runs ts)

  flush-Runs : Runs P.rel flush_outbox
  flush-Runs = flush_outbox-Runs P

  pub recover-Runs : Runs P.rel recover
  unfolding recover
  recover-Runs = search (run_rules, resume_all-Runs, publish_all-Runs, flush-Runs) depth 24
