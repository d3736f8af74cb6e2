-- ===== src/Tools/Steps.antt =====
-- The operations of src/mutmuas/tools.py, by the rules of Hub/Runs.
use mutmuas.Prelude.{String, Bool, true, false, Option, none, some, List}
use mutmuas.Ids.{Address}
use mutmuas.Json.{Json, Fields}
use mutmuas.Protocol.Envelope.{ArtifactRef}
use mutmuas.Protocol.Bodies.{ResultOptions}
use mutmuas.Ledger.Rows.{Task}
use mutmuas.Hub.Promise.{Promise, update-Runs}
use mutmuas.Hub.Runs.{Runs, run_rules}
use mutmuas.Hub.OwnerSteps.{reply-Runs, owner_transition-Runs, finish-Runs}
use mutmuas.Tools.{
  owned_by, owned, target, requested, hand_in, accept_task, reject_task, report_progress,
  submit_result, ask_question, answer, cancel_task,
}

module _ (P : Promise) where
  owned_by-Runs : (a : Address) (o : Option Task) → Runs P.rel (owned_by a o)
  owned_by-Runs a none = search (run_rules)
  owned_by-Runs a (some t) = search (run_rules)

  owned-Runs : (me id : String) → Runs P.rel (owned me id)
  unfolding owned
  owned-Runs me id = search (run_rules, owned_by-Runs) depth 12

  target-Runs : (o current : Option String) → Runs P.rel (target o current)
  target-Runs none none = search (run_rules)
  target-Runs none (some c) = search (run_rules)
  target-Runs (some id) none = search (run_rules)
  target-Runs (some id) (some c) = search (run_rules)

  requested-Runs : (o : Option Task) → Runs P.rel (requested o)
  requested-Runs none = search (run_rules)
  requested-Runs (some t) = search (run_rules)

  hand_in-Runs :
      (b : Bool) (id : String) (body : Fields) (refs : List ArtifactRef)
      → Runs P.rel (hand_in b id body refs)
  hand_in-Runs true id body refs = search (run_rules, update-Runs P) depth 12
  hand_in-Runs false id body refs = search (run_rules, finish-Runs P) depth 12

  pub accept_task-Runs : (me id : String) → Runs P.rel (accept_task me id)
  unfolding accept_task
  accept_task-Runs me id = search (run_rules, owned-Runs, owner_transition-Runs P) depth 12

  pub reject_task-Runs : (me id reason : String) → Runs P.rel (reject_task me id reason)
  unfolding reject_task
  reject_task-Runs me id reason = search (run_rules, owned-Runs, owner_transition-Runs P) depth 12

  pub report_progress-Runs :
      (current : Option String) (me message : String) (id state : Option String)
      → Runs P.rel (report_progress current me message id state)
  unfolding report_progress
  report_progress-Runs current me message id state =
      search (run_rules, target-Runs, owned-Runs, owner_transition-Runs P) depth 16

  pub submit_result-Runs :
      (current : Option String) (me status summary : String) (id : Option String)
      (o : ResultOptions) (artifacts : List Json)
      → Runs P.rel (submit_result current me status summary id o artifacts)
  unfolding submit_result
  submit_result-Runs current me status summary id o artifacts =
      search (run_rules, target-Runs, owned-Runs, hand_in-Runs) depth 20

  pub ask_question-Runs : (me id question : String) → Runs P.rel (ask_question me id question)
  unfolding ask_question
  ask_question-Runs me id question = search (reply-Runs P)

  pub answer-Runs : (me id text : String) → Runs P.rel (answer me id text)
  unfolding answer
  answer-Runs me id text = search (reply-Runs P)

  pub cancel_task-Runs : (me id reason : String) → Runs P.rel (cancel_task me id reason)
  unfolding cancel_task
  cancel_task-Runs me id reason =
      search (run_rules, requested-Runs, reply-Runs P, update-Runs P) depth 16
