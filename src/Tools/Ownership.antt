-- ===== src/Tools/Ownership.antt =====
-- Acting on a task that one owns or not (src/mutmuas/tools.py: _owned, accept_task, reject_task).
use mutmuas.Prelude.{String, ◌≡◌, refl, some, ◌⊎◌, inl, inr, Bool-cases, Option-cases, eq_iff, ◌==◌}
use mutmuas.Result.{Error, ok, err, Result-cases, permission_denied}
use mutmuas.Ids.{Address, to_text}
use mutmuas.Config.{AgentConfig}
use mutmuas.Ledger.Rows.{Task, owner}
use mutmuas.Ledger.Tasks.{task}
use mutmuas.Hub.State.{State}
use mutmuas.Hub.Requests.{local_agent}
use mutmuas.Tools.{owned, accept_task, reject_task}

-- The agent that acts is one of the node, and the task is its own.
pub record IsOwned (me id : String) (s : State) : Type 0 where
  pub who : Address × AgentConfig
  pub acts : local_agent s.cfg (some me) ≡ ok who
  pub row : Task
  pub found : task id owner s.ledger ≡ some row
  pub own : row.owner ≡ to_text who.0

owned-IsOwned :
    (me id : String) (s : State) → IsOwned me id s ⊎ ((e : Error) × (owned me id s ≡ (err e, s)))
unfolding owned
owned-IsOwned me id s = elim (Result-cases (local_agent s.cfg (some me))) [
  | inr (e, bad) ↦ inr (e, rw bad refl)
  | inl (who, good) ↦ elim (Option-cases (task id owner s.ledger)) [
    | inl missing ↦ inr (permission_denied, rw (good, missing) refl)
    | inr (t, here) ↦ elim (Bool-cases (t.owner == to_text who.0)) [
      | inl same ↦ inl (record {
        who = who;
        acts = good;
        row = t;
        found = here;
        own = (eq_iff t.owner (to_text who.0)).0 same;
      })
      | inr other ↦ inr (permission_denied, rw (good, here) (rw other refl))
    ]
  ]
]

-- An agent that does not own a task can neither accept nor reject it: both raise, and leave the node as
-- it was.
pub ownership :
    (me id reason : String) (s : State)
    → IsOwned me id s
      ⊎ ((e : Error) × (accept_task me id s ≡ (err e, s))
          × (reject_task me id reason s ≡ (err e, s)))
unfolding accept_task reject_task
ownership me id reason s = elim (owned-IsOwned me id s) [
  | inl mine ↦ inl mine
  | inr (e, denied) ↦ inr (e, rw denied refl, rw denied refl)
]
