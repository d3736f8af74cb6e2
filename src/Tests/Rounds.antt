-- ===== src/Tests/Rounds.antt =====
-- A round of the dispatcher, and a wait for a result.
use mutmuas.Prelude.{ℕ, ◌+◌, ◌≡◌, refl, Option, some, [], ◌∷◌, arith, nat_eq, if◌then◌else◌}
use mutmuas.Result.{Result, ok}
use mutmuas.Json.{Fields, field, end, str}
use mutmuas.Ledger.Rows.{Ledger}
use mutmuas.Ledger.Insert.{incoming_row}
use mutmuas.Ledger.Inbox.{unhandled}
use mutmuas.Hub.State.{lost}
use mutmuas.Hub.Wait.{wait_result, Waited, wait_result_ends}
use mutmuas.Node.Dispatch.{dispatch}
use mutmuas.Node.Handled.{AreFinished, dispatch_finishes}
use mutmuas.Tests.Samples.{request_message, no_rows, database, node_with}

-- A request that the agent does not admit, with a bus that loses what is sent.
abbrev one_received : Ledger
one_received = record { messages = incoming_row 5 request_message no_rows ∷ []; tasks = [] }

dispatch_finishes_example :
    ((dispatch database "A:db" (node_with lost one_received)).0 ≡ ok tt)
    × AreFinished
        (unhandled "A:db" one_received)
        (dispatch database "A:db" (node_with lost one_received)).1.ledger
dispatch_finishes_example =
    dispatch_finishes database "A:db" (node_with lost one_received) (refl, tt)

-- A task that is closed at the third poll.
abbrev views : ℕ → Option Fields
views k = some (field "status" (str (if nat_eq k 2 then "COMPLETED" else "RUNNING")) end)

wait_result_ends_example :
    (r : Result Fields) × (wait_result views (λ k. k + 1) 0 5 ≡ some r)
    × Waited views (λ k. k + 1) (0 + 5) 0 r
wait_result_ends_example = wait_result_ends views (λ k. k + 1) 0 5 (omega arith) (λ k. omega arith)
