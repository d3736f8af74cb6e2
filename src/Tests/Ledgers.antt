-- ===== src/Tests/Ledgers.antt =====
-- The ledger's operations on a request that is queued, accepted and finished.
use mutmuas.Prelude.{
  String, ◌≡◌, refl, true, false, not, ◌⊎◌, ◌&&◌, some, none, [], ◌∷◌, ◌++◌, map, select, ◌==◌,
}
use mutmuas.Result.{ok}
use mutmuas.Protocol.Types.{TaskState}
use mutmuas.Ledger.Rows.{inbound, Message, Task, Role, Ledger, owner, has_task_key}
use mutmuas.Ledger.Insert.{insert_message, outgoing_row}
use mutmuas.Ledger.Outbox.{queue, is_waiting, mark_sent, mark_send_error}
use mutmuas.Ledger.Inbox.{ingest}
use mutmuas.Ledger.Tasks.{
  task, update_task, Change, set_last_message, set_result_status, write_task,
}
use mutmuas.Ledger.Delivery.{
  is_stored, waiting, ingest_again, waiting-queue, waiting-mark_sent, waiting-mark_send_error,
}
use mutmuas.Ledger.Transitions.{task-write_task, updated}
use mutmuas.Ledger.Updated.{IsTooLate, IsWritten, IsAnnounced, update_task_effect}
use mutmuas.Ledger.History.{Reach, here, next, local, sends, updates, Keeps, terminal_forever}
use mutmuas.Ledger.SentRows.{is_marked}
use mutmuas.Ledger.Outlet.{is_unsent, never_forgotten}
use mutmuas.Tests.Samples.{request_message, result_message, no_rows, one_queued, with_task, task_in}

ingest_again_example :
    ((ingest 7 request_message no_rows).1 ≡ not (is_stored "m-1" inbound no_rows))
    × (ingest 9 request_message (ingest 7 request_message no_rows).0
        ≡ ((ingest 7 request_message no_rows).0, false))
ingest_again_example = ingest_again 7 9 request_message no_rows

abbrev after_result : Ledger
after_result = record {
  messages = one_queued.messages ++ (outgoing_row 8 result_message one_queued ∷ []);
  tasks = [];
}

queue_result : queue 8 result_message one_queued ≡ ok after_result
unfolding queue insert_message
queue_result = refl

queued_behind : waiting after_result ≡ request_message ∷ result_message ∷ []
queued_behind = waiting-queue 8 result_message one_queued after_result refl queue_result

sent_first :
    waiting (mark_sent 9 "m-1" after_result)
    ≡ map
        (λ (m : Message). m.envelope)
        (select
          (λ (m : Message). is_waiting m && not (m.message_id == "m-1"))
          after_result.messages)
sent_first = waiting-mark_sent 9 "m-1" after_result

waiting-mark_send_error_example :
    waiting (mark_send_error 9 "m-1" "timeout" after_result) ≡ waiting after_result
waiting-mark_send_error_example = waiting-mark_send_error 9 "m-1" "timeout" after_result

abbrev finished : Ledger
finished = with_task TaskState.completed

abbrev noted : Change
noted = record {
  status = none;
  force = false;
  announce = none;
  columns = set_last_message "m-9" ∷ [];
}

abbrev with_note : Ledger
with_note = write_task 9 "task-1" owner none (set_last_message "m-9" ∷ []) finished

note : update_task 9 "task-1" owner noted finished ≡ ok (with_note, true)
unfolding update_task task
note = refl

found_finished : task "task-1" owner finished ≡ some (task_in TaskState.completed owner)
unfolding task
found_finished = refl

task-write_task_example :
    task "task-1" owner with_note
    ≡ some (updated 9 none (set_last_message "m-9" ∷ []) (task_in TaskState.completed owner))
unfolding task
task-write_task_example =
    task-write_task 9 "task-1" "task-1" owner owner none (set_last_message "m-9" ∷ []) finished

-- The owner finishes a running task, and tells the requester.
abbrev at_work : Ledger
at_work = with_task TaskState.running

abbrev done_and_told : Change
done_and_told = record {
  status = some TaskState.completed;
  force = false;
  announce = some result_message;
  columns = set_result_status "partial" ∷ set_result_status "complete" ∷ [];
}

abbrev told : Ledger
told = record {
  messages = at_work.messages ++ (outgoing_row 9 result_message at_work ∷ []);
  tasks =
      record (task_in TaskState.running owner) {
        status = TaskState.completed;
        result_status = some "complete";
        updated_at = 9;
      }
      ∷ [];
}

tells : update_task 9 "task-1" owner done_and_told at_work ≡ ok (told, true)
unfolding update_task task queue insert_message
tells = refl

update_task_effect_example :
    ((true ≡ false)
      × (told ≡ at_work)
      × ((task "task-1" owner at_work ≡ none)
          ⊎ ((t : Task) × (task "task-1" owner at_work ≡ some t) × IsTooLate done_and_told t)))
    ⊎ ((true ≡ true)
        × ((t : Task) × (u : Task) × (task "task-1" owner at_work ≡ some t)
            × (¬ IsTooLate done_and_told t)
            × (task "task-1" owner told ≡ some u)
            × IsWritten 9 done_and_told.status done_and_told.columns t u)
        × ((j : String) (q : Role) (v : Task)
            → task j q at_work ≡ some v
            → has_task_key "task-1" owner v ≡ false
            → task j q told ≡ some v)
        × IsAnnounced done_and_told.announce at_work told)
update_task_effect_example =
    update_task_effect 9 "task-1" owner done_and_told at_work told true tells

noted_later : Reach finished with_note
noted_later = next here (local (updates 9 "task-1" owner noted true refl note))

terminal_forever_example : Keeps "task-1" owner TaskState.completed with_note
terminal_forever_example =
    terminal_forever "task-1" owner (task_in TaskState.completed owner) finished with_note
      found_finished refl noted_later

published_later : Reach one_queued (mark_sent 9 "m-1" one_queued)
published_later = next here (sends 9 "m-1" refl)

never_forgotten_example :
    (is_unsent "m-1" (mark_sent 9 "m-1" one_queued) ≡ true)
    ⊎ (is_marked "m-1" (mark_sent 9 "m-1" one_queued) ≡ true)
never_forgotten_example =
    never_forgotten "m-1" one_queued (mark_sent 9 "m-1" one_queued) published_later refl
