-- ===== src/Runtime/Process.antt =====
-- The life of a process (src/mutmuas/runtime.py: SubprocessRuntime.run, _kill_group), and what of it the
-- node's daemon reads (src/mutmuas/node.py: _result_from).
use mutmuas.Prelude.{
  ℕ, String, Bool, true, false, Option, List, [], ◌∷◌, if◌then◌else◌, clip_end, nat_eq,
}
use mutmuas.Json.{Json}
use mutmuas.Runtime.Output
use mutmuas.Runtime.Output.{ExitCode, RunOutcome, tail_bytes, read_on, claude_parse, error_lines}
use mutmuas.Runtime.Commands.{Runtime, script, claude_code, codex}
use mutmuas.Node.Results

pub data Signal : Type 0 where
  terminate kill : Signal

-- What the operating system answers: whether the process has ended before, whether its group is gone
-- when a signal is sent, and whether it ends within the five seconds behind it.
pub record Group : Type 0 where
  pub ended : Bool
  pub gone : Signal → Bool
  pub ends_after : Signal → Bool

-- The signals that were sent, and whether the process is known to be over.
pub record Killed : Type 0 where
  pub sent : List Signal
  pub over : Bool

-- The loop of `_kill_group` over the signals that are left.
unfoldable pub send_signals : Group → List Signal → Killed
send_signals g [] = record { sent = []; over = false }
send_signals g (s ∷ rest) =
    let later = send_signals g rest in
    if g.gone s
    then record { sent = []; over = true }
    else if g.ends_after s
    then record { sent = s ∷ []; over = true }
    else record { sent = s ∷ later.sent; over = later.over }

unfoldable pub kill_group : Group → Killed
unfolding send_signals
kill_group g =
    if g.ended then record { sent = []; over = true } else send_signals g (terminate ∷ kill ∷ [])

-- How the reading of a process ends: with its exit, or with an exception in the reader.
pub data Reading : Type 0 where
  exits : ExitCode → Reading
  breaks : Reading

-- `run` returns an outcome, or passes the exception on when it has killed the group.
pub data Ran : Type 0 where
  returned : RunOutcome → Ran
  raised : Killed → Ran

unfoldable pub parse_output : Runtime → (String → Option Json) → ExitCode → String → RunOutcome
unfolding claude_parse Output.parse
parse_output script loads code tail = Output.parse loads code tail
parse_output claude_code loads code tail = claude_parse loads code tail
parse_output codex loads code tail = Output.parse loads code tail

-- `SubprocessRuntime.run` from the start of the process on: the chunks that its output comes in, and
-- how the reading ends.
unfoldable pub run :
    (String → Option Json) → (List ℕ → String) → Runtime → Group → List (List ℕ) → Reading → Ran
unfolding read_on kill_group parse_output
run loads decode rt g chunks (exits code) =
    returned (parse_output rt loads code (decode (read_on tail_bytes chunks [])))
run loads decode rt g chunks breaks = raised (kill_group g)

abbrev exit_ok : ExitCode → Bool
exit_ok (ExitCode.exited n) = nat_eq n 0
exit_ok (ExitCode.signalled n) = false

-- The outcome as `_result_from` reads it; a code prints as a number, a signal as a negative one.
unfoldable pub as_read :
    (ExitCode → String)
    → (String → String)
    → String
    → Option String
    → RunOutcome
    → mutmuas.Node.Results.RunOutcome
unfolding error_lines
as_read show lower log_path log o = record {
  exit_ok = exit_ok o.exit_code;
  exit_text = show o.exit_code;
  output_end = clip_end 2000 o.output_tail;
  result = o.result;
  log_path = log_path;
  error_lines = error_lines lower 8 log;
}
