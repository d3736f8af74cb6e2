-- ===== src/Hub/Wait.antt =====
-- Waiting for the end of a task (src/mutmuas/hub.py: wait_result). A poll is numbered; what `task_view`
-- answers and what the clock shows at it are functions of the number.
use mutmuas.Prelude.{
  ℕ, zero, suc, ◌+◌, ◌*◌, ◌≤◌, ◌<◌, ◌≡◌, refl, Bool, true, false, Option, none, some, arith, leb,
  if◌then◌else◌, Bool-cases, Option-cases, inl, inr,
}
use native.Mathlib.Decide.{dec_lt}
use mutmuas.Result.{Result, ok, err, key_error}
use mutmuas.Json.{Json, Fields, str, bool, get, put}
use mutmuas.Protocol.Types.{task_state, is_terminal}

-- view.get("status") in TERMINAL_STATES
abbrev pub is_closed : Json → Bool
is_closed (str s) = elim (task_state s) [ none ↦ false | some t ↦ is_terminal t ]
is_closed _ = false

abbrev pub timed_out : Fields → Fields
timed_out view = put view "timed_out_waiting" (bool true)

-- The loop of `wait_result` from a poll on; none when the fuel is spent.
unfoldable pub wait_from : (ℕ → Option Fields) → (ℕ → ℕ) → ℕ → ℕ → ℕ → Option (Result Fields)
wait_from views clock deadline zero k = none
wait_from views clock deadline (suc fuel) k =
    let later = wait_from views clock deadline fuel (suc k) in
    elim (views k) [
      | none ↦ some (err key_error)
      | some view ↦
          if is_closed (get view "status")
          then some (ok view)
          else if leb deadline (clock k)
          then some (ok (timed_out view))
          else later
    ]

-- How a wait ends: at a poll before which the task was open and the deadline ahead.
pub data Waited (views : ℕ → Option Fields) (clock : ℕ → ℕ) (deadline : ℕ)
    : ℕ → Result Fields → Type 0 where
  unknown : {k : ℕ} → views k ≡ none → Waited views clock deadline k (err key_error)
  closed :
      {k : ℕ} {view : Fields}
      → views k ≡ some view
      → is_closed (get view "status") ≡ true
      → Waited views clock deadline k (ok view)
  late :
      {k : ℕ} {view : Fields}
      → views k ≡ some view
      → is_closed (get view "status") ≡ false
      → deadline ≤ clock k
      → Waited views clock deadline k (ok (timed_out view))
  later :
      {k : ℕ} {view : Fields} {r : Result Fields}
      → views k ≡ some view
      → is_closed (get view "status") ≡ false
      → clock k < deadline
      → Waited views clock deadline (suc k) r
      → Waited views clock deadline k r

module _ (views : ℕ → Option Fields) (clock : ℕ → ℕ) (deadline poll : ℕ)
    (step : (k : ℕ) → clock k + poll ≤ clock (suc k)) where
  abbrev Ends : ℕ → ℕ → Type 0
  Ends fuel k =
      (r : Result Fields) × (wait_from views clock deadline fuel k ≡ some r)
      × Waited views clock deadline k r

  next :
      (fuel k : ℕ) (view : Fields)
      → views k ≡ some view
      → is_closed (get view "status") ≡ false
      → clock k < deadline
      → Ends fuel (suc k)
      → Ends (suc fuel) k
  unfolding wait_from
  next fuel k view e o t (r, f, w) = (r, rw (wait_from, e, o) (ground arith), later e o t w)

  over :
      (fuel k : ℕ) (view : Fields)
      → views k ≡ some view
      → is_closed (get view "status") ≡ false
      → deadline ≤ clock k
      → Ends (suc fuel) k
  unfolding wait_from
  over fuel k view e o t = (_, rw (wait_from, e, o) (ground arith), late e o t)

  at_poll : (fuel k : ℕ) → (clock k < deadline → Ends fuel (suc k)) → Ends (suc fuel) k
  unfolding wait_from
  at_poll fuel k rest = elim (Option-cases (views k)) [
    | inl e ↦ (_, rw (wait_from, e) refl, unknown e)
    | inr (view, e) ↦ elim (Bool-cases (is_closed (get view "status"))) [
      | inl c ↦ (_, rw (wait_from, e, c) refl, closed e c)
      | inr o ↦ elim (dec_lt (clock k) deadline) [
        | yes t ↦ next fuel k view e o t (rest t)
        | no t ↦ over fuel k view e o (omega arith)
      ]
    ]
  ]

  wait_from-ends : (fuel k : ℕ) → deadline < clock k + fuel * poll → Ends (suc fuel) k
  wait_from-ends zero k h = at_poll zero k (λ t. absurd (omega arith))
  wait_from-ends (suc fuel) k h = at_poll (suc fuel) k λ t.
      let s = step k in
      let mult : suc fuel * poll ≡ poll + fuel * poll = grind arith in
      wait_from-ends fuel (suc k) (omega arith)

-- `wait_result`, called at the time `start`: the fuel is one poll for every unit of time, and two more.
unfoldable pub wait_result :
    (ℕ → Option Fields) → (ℕ → ℕ) → (start timeout : ℕ) → Option (Result Fields)
unfolding wait_from
wait_result views clock start timeout =
    wait_from views clock (start + timeout) (suc (timeout + 1)) 0

-- If the clock does not go back before the first poll and advances between polls, the wait ends, and it ends in one of three ways: the task is not
-- known at a poll, or closed at it, or still open at the first poll behind the deadline.
pub wait_result_ends :
    (views : ℕ → Option Fields) (clock : ℕ → ℕ) (start timeout : ℕ)
    → start ≤ clock 0
    → ((k : ℕ) → clock k < clock (suc k))
    → (r : Result Fields) × (wait_result views clock start timeout ≡ some r)
      × Waited views clock (start + timeout) 0 r
unfolding wait_result
wait_result_ends views clock start timeout since step =
    wait_from-ends views clock (start + timeout) 1 (λ k. let s = step k in omega arith)
      (timeout + 1) 0 (omega arith)
