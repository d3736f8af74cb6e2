-- ===== src/Tests/Daemon.antt =====
-- The daemon and the tools on a request, a run and a queue.
use mutmuas.Prelude.{◌≡◌, refl, ◌↔◌, ◌⊎◌, true, false, arith, some, none, [], ◌∷◌}
use mutmuas.Config.{accepts}
use mutmuas.Glob.Patterns.{IsAdmittedBy, accepts_iff}
use mutmuas.Result.{Error, ok, err}
use mutmuas.Json.{str, obj, Fields, end, field, get}
use mutmuas.Protocol.Types.{MessageType, TaskState, result_status}
use mutmuas.Protocol.Codec.{refs_from}
use mutmuas.Ledger.Rows.{owner}
use mutmuas.Ledger.Tasks.{task}
use mutmuas.Hub.State.{State, acked}
use mutmuas.Hub.Owner.{owner_transition, finish}
use mutmuas.Hub.Finish.{IsRefused, owner_transition-IsRefused, finish-IsRefused}
use mutmuas.Node.Requests.{check_policy, enqueue}
use mutmuas.Node.Policy.{IsAdmitted, check_policy_iff}
use mutmuas.Node.Results.{
  RunOutcome, result_from, structured, downgrade, candidate, is_structured, is_complete, GitSummary,
  attach_git,
}
use mutmuas.Node.Honesty.{result_from-honest, attach_git-honest}
use mutmuas.Node.Runner.{take_task, take_first, release}
use mutmuas.Node.Queue.{IsSound, Turns, here, next, puts, takes, lets_go, queue-IsSound}
use mutmuas.Tools.{accept_task, reject_task}
use mutmuas.Tools.Ownership.{IsOwned, ownership}
use mutmuas.Tests.Samples.{request_message, no_rows, with_task, task_in, node_with, database, patch}

abbrev idle : State
idle = node_with acked no_rows

abbrev closed : State
closed = node_with acked (with_task TaskState.completed)

check_policy_example :
    (check_policy database request_message ≡ ok none) ↔ IsAdmitted database request_message
check_policy_example = check_policy_iff database request_message

ownership_example :
    IsOwned "db" "task-2" closed
    ⊎ ((e : Error) × (accept_task "db" "task-2" closed ≡ (err e, closed))
        × (reject_task "db" "task-2" "busy" closed ≡ (err e, closed)))
ownership_example = ownership "db" "task-2" "busy" closed

found_closed : task "task-1" owner closed.ledger ≡ some (task_in TaskState.completed owner)
unfolding task
found_closed = refl

owner_transition_example :
    IsRefused
      (owner_transition "task-1" TaskState.cancelled (str "late") MessageType.update none closed).0
      closed
      (owner_transition "task-1" TaskState.cancelled (str "late") MessageType.update none closed).1
owner_transition_example =
    owner_transition-IsRefused "task-1" TaskState.cancelled (str "late") MessageType.update none
      closed (task_in TaskState.completed owner) found_closed refl

abbrev all_rows : Fields
all_rows = field "status" (str "complete") (field "summary" (str "12 rows") end)

finish_example :
    IsRefused (finish "task-1" all_rows [] closed).0 closed (finish "task-1" all_rows [] closed).1
finish_example =
    finish-IsRefused "task-1" all_rows [] closed (task_in TaskState.completed owner) found_closed
      refl

abbrev clean_run : RunOutcome
clean_run = record {
  exit_ok = true;
  exit_text = "0";
  output_end = "";
  result = some all_rows;
  log_path = "run.log";
  error_lines = [];
}

clean_result : result_from none clean_run ≡ ok (all_rows, [])
unfolding result_from structured downgrade result_status refs_from
clean_result = refl

result_from_example :
    (clean_run.exit_ok ≡ true)
    × ((c : Fields) × (candidate none clean_run ≡ some c)
        × (is_structured c ≡ true)
        × (is_complete (get c "status") ≡ true))
result_from_example = result_from-honest none clean_run all_rows [] clean_result refl

abbrev one_commit : GitSummary
one_commit = record {
  branch_ref = patch;
  patch_ref = none;
  summary = str "1 commit";
  has_commits = true;
  is_dirty = false;
}

abbrev with_branch : Fields
with_branch =
    field "status" (str "complete") (
      field "summary" (str "12 rows")
        (field "outputs" (obj (field "git" (str "1 commit") end)) end))

attached : attach_git "" (some one_commit) all_rows [] ≡ ok (with_branch, patch ∷ [])
unfolding attach_git
attached = refl

attach_git_example : (one_commit.has_commits ≡ true) × (is_complete (get all_rows "status") ≡ true)
attach_git_example =
    attach_git-honest "" one_commit all_rows with_branch [] (patch ∷ []) attached refl

abbrev busy : State
busy = record idle { queue = ("A:db", "task-1") ∷ []; queued = ("A:db", "task-1") ∷ [] }

abbrev started : State
started = record idle { running = "task-1" ∷ []; queued = ("A:db", "task-1") ∷ [] }

taken : take_task "A:db" busy ≡ some ("task-1", started)
unfolding take_task take_first
taken = refl

-- A request that comes twice, is run, and is done.
busy_day : Turns (idle, []) (release "A:db" "task-1" started, [])
unfolding enqueue
busy_day =
    next
      (next (next (next here (puts "A:db" "task-1")) (puts "A:db" "task-1"))
        (takes {s = busy} taken))
      (lets_go "A:db" "task-1" refl)

queue-IsSound_example : IsSound (release "A:db" "task-1" started, [])
queue-IsSound_example = queue-IsSound busy_day (λ a t. (omega arith, omega arith))

accepts_iff_example : (accepts database "B:ana" ≡ true) ↔ IsAdmittedBy database.accept_from "B:ana"
accepts_iff_example = accepts_iff database "B:ana"
