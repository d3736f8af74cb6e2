-- ===== src/Tests/Nodes.antt =====
-- A node whose bus loses acknowledgements, then works.
use mutmuas.Prelude.{◌≡◌, refl, arith, true, ◌⊎◌, some, none, List, [], ◌∷◌}
use mutmuas.Protocol.Types.{TaskState}
use mutmuas.Ledger.Rows.{owner}
use mutmuas.Ledger.Tasks.{task}
use mutmuas.Ledger.History.{Reach, Keeps}
use mutmuas.Ledger.Outlet.{is_unsent}
use mutmuas.Hub.State.{State, acked}
use mutmuas.Hub.Published.{IsPublished, is_in_stream}
use mutmuas.Life.{
  Event, restart, reconnect, delivery, cancels, live, live-Reach, closed_for_life, live-IsPublished,
  never_lost,
}
use mutmuas.Tests.Samples.{with_task, task_in, node_with}

-- A delivery that cannot be read, a restart and a new connection.
abbrev day : List Event
day =
    delivery "A:db" "mm.demo.msg.A.db.B" none
    ∷ restart
    ∷ reconnect
    ∷ cancels "db" "task-1" "late"
    ∷ []

abbrev node : State
node = node_with acked (with_task TaskState.completed)

live-Reach_example : Reach node.ledger (live day node).ledger
live-Reach_example = live-Reach day node

found : task "task-1" owner node.ledger ≡ some (task_in TaskState.completed owner)
unfolding task
found = refl

closed_for_life_example : Keeps "task-1" owner TaskState.completed (live day node).ledger
closed_for_life_example =
    closed_for_life day node "task-1" owner (task_in TaskState.completed owner) found refl

node-IsPublished : IsPublished node
node-IsPublished id h = ground arith

live-IsPublished_example : IsPublished (live day node)
live-IsPublished_example = live-IsPublished day node node-IsPublished

never_lost_example :
    (is_unsent "m-1" (live day node).ledger ≡ true) ⊎ (is_in_stream "m-1" (live day node) ≡ true)
never_lost_example = never_lost day node "m-1" node-IsPublished refl
