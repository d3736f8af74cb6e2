-- ===== src/Node/Runner.antt =====
-- The runners' queue (src/mutmuas/node.py: _runner): one task at a time is taken, run and let go.
use mutmuas.Prelude.{
  String, Bool, not, ◌&&◌, Option, none, some, List, [], ◌∷◌, ◌++◌, select, ◌==◌, if◌then◌else◌,
}
use mutmuas.Hub.State.{State}

abbrev pub is_entry : String → String → String × String → Bool
is_entry addr task_id (a, t) = a == addr && t == task_id

-- What `queue.get()` takes: the oldest entry of the agent, and the others.
unfoldable pub take_first :
    String → List (String × String) → Option (String × List (String × String))
take_first addr [] = none
take_first addr ((a, t) ∷ rest) =
    if a == addr
    then some (t, rest)
    else elim (take_first addr rest) [ none ↦ none | some (u, q) ↦ some (u, (a, t) ∷ q) ]

-- The task that a runner of the agent starts on, if any waits.
unfoldable pub take_task : String → State → Option (String × State)
unfolding take_first
take_task addr s = elim (take_first addr s.queue) [
  | none ↦ none
  | some (t, rest) ↦ some (t, record s { queue = rest; running = s.running ++ (t ∷ []) })
]

-- The `finally` of the runner: the task may be queued again.
unfoldable pub release : String → String → State → State
release addr task_id s = record s {
  running = select (λ t. not (t == task_id)) s.running;
  queued = select (λ e. not (is_entry addr task_id e)) s.queued;
}
