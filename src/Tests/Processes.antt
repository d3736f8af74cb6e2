-- ===== src/Tests/Processes.antt =====
-- A worker's process: its command line, its output and its end.
use mutmuas.Prelude.{
  ℕ, String, ◌≡◌, ◌≤◌, refl, Option, none, some, List, [], ◌∷◌, length, keep_end, split_lines,
  is_break, strip, strip_left, strip_right, is_space,
}
use mutmuas.Result.{ok}
use mutmuas.Json.{Json, obj, end}
use mutmuas.Runtime.Context.{Host, TaskContext}
use mutmuas.Runtime.Commands.{Command, codex_command, claude_command}
use mutmuas.Runtime.Output.{
  tail_bytes, read_on, split_fence, candidates, last_json, first_dict, error_lines, has_part,
  distinct,
}
use mutmuas.Runtime.Privilege.{HasTools, HasSandbox, least_privilege}
use mutmuas.Runtime.Tail.{until_end, read_on_tail}
use mutmuas.Runtime.LastJson.{IsChosen, last_json_choice}
use mutmuas.Tests.Samples.{request_message, database, node_a}

abbrev host : Host
host = record {
  executable = "/usr/bin/python3";
  environ = [];
  resolve = λ p. p;
  data_path = "/data";
  dumps = λ v. "{}";
  dumps_unicode = λ v. "{}";
  dumps_pretty = λ v. "{}";
  show = λ n. "1";
}

-- A query to an agent that may do everything.
abbrev query : TaskContext
query = record {
  task_id = "task-1";
  request = request_message;
  agent = record database { permissions = "ADMIN" ∷ [] };
  node = node_a;
  attempt = 1;
  workdir = none;
  git_branch = none;
}

least_privilege_example :
    ((c : Command) × (claude_command host query ≡ ok c)
      × HasTools query "mcp__mutmuas,Read,Glob,Grep" c)
    × ((c : Command) × (codex_command host query ≡ ok c) × HasSandbox "read-only" c)
least_privilege_example = least_privilege host query "query" refl

abbrev two_chunks : List (List ℕ)
two_chunks = (1 ∷ 2 ∷ []) ∷ (3 ∷ []) ∷ [] ∷ (4 ∷ []) ∷ []

read_on_tail_example :
    (read_on tail_bytes two_chunks [] ≡ keep_end tail_bytes (until_end two_chunks))
    × (length (read_on tail_bytes two_chunks []) ≤ tail_bytes)
read_on_tail_example = read_on_tail two_chunks

last_two : read_on 2 two_chunks [] ≡ 2 ∷ 3 ∷ []
unfolding read_on
last_two = refl

split_lines_test : split_lines "a\r\nb\n\nc" ≡ "a" ∷ "b" ∷ "" ∷ "c" ∷ []
unfolding split_lines is_break
split_lines_test = refl

strip_test : strip " \ta b\n " ≡ "a b"
unfolding strip strip_left strip_right is_space
strip_test = refl

fenced : split_fence "x```json\n{}```y" ≡ "x" ∷ "json\n{}" ∷ "y" ∷ []
unfolding split_fence
fenced = refl

abbrev report : String
report = "log\n{\"a\"}\ndone"

-- Every text that begins with a brace parses, as an empty object.
abbrev loads : String → Option Json
loads String.[] = none
loads (String.◌∷◌ c s) = if_brace (Prim.Native.String.compare (String.◌∷◌ c String.[]) "{")
  where
    if_brace : Prim.Native.Nat.Ordering → Option Json
    if_brace Prim.Native.Nat.Ordering.eq = some (obj end)
    if_brace _ = none

last_json_choice_example : IsChosen loads (candidates report) (last_json loads report)
last_json_choice_example = last_json_choice loads report refl

found : last_json loads report ≡ some end
unfolding last_json candidates first_dict split_fence strip strip_left strip_right split_lines
    is_break is_space
found = refl

why :
    error_lines (λ s. s) 1 (some "$ run\nError\n out of credits \nout of credits\n")
    ≡ "out of credits" ∷ []
unfolding error_lines has_part distinct split_lines strip strip_left strip_right is_space is_break
why = refl
