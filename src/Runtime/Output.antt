-- ===== src/Runtime/Output.antt =====
-- What is read from a process (src/mutmuas/runtime.py: RunOutcome, SubprocessRuntime.run and parse,
-- _last_json; src/mutmuas/node.py: _error_lines). `json.loads` and `bytes.decode` are arguments.
use Prim.Native.Char.{code}
use mathlib.Core.List.{reverse}
use mutmuas.Prelude.{
  ℕ, ◌*◌, String, Bool, ◌&&◌, ◌||◌, Option, none, some, List, [], ◌∷◌, ◌++◌, map, drop, keep_end,
  select, any, nat_eq, if◌then◌else◌, ◌==◌, strip, split_lines, push_first, has_prefix,
  remove_prefix, clip_end, is_nil,
}
use mutmuas.Json.{Json, str, obj, Fields, end, get, null}

abbrev pub tail_bytes : ℕ
tail_bytes = 64 * 1024

-- The loop over the chunks that the pipe gives; the empty one is its end. `limit` is TAIL_BYTES.
unfoldable pub read_on : ℕ → List (List ℕ) → List ℕ → List ℕ
read_on limit [] tail = tail
read_on limit ([] ∷ _) tail = tail
read_on limit ((b ∷ chunk) ∷ rest) tail = read_on limit rest (keep_end limit (tail ++ (b ∷ chunk)))

abbrev is_tick : ℕ → Bool
is_tick c = nat_eq c b'`'

-- text.split("```")
unfoldable pub split_fence : String → List String
split_fence String.[] = "" ∷ []
split_fence (String.◌∷◌ c String.[]) = String.◌∷◌ c String.[] ∷ []
split_fence (String.◌∷◌ c (String.◌∷◌ d String.[])) = String.◌∷◌ c (String.◌∷◌ d String.[]) ∷ []
split_fence (String.◌∷◌ c (String.◌∷◌ d (String.◌∷◌ e s))) =
    if is_tick (code c) && (is_tick (code d) && is_tick (code e))
    then "" ∷ split_fence s
    else push_first c (split_fence (String.◌∷◌ d (String.◌∷◌ e s)))

-- parts[1::2]
abbrev pub odd_parts {ℓ} : {A : Type ℓ} → List A → List A
odd_parts [] = []
odd_parts (x ∷ []) = []
odd_parts (x ∷ y ∷ rest) = y ∷ odd_parts rest

-- The texts that may be the result, in their order; a text without a fence has one part.
unfoldable pub candidates : String → List String
unfolding split_fence strip split_lines
candidates text =
    map (λ b. strip (remove_prefix "json" b)) (odd_parts (split_fence text))
    ++ (select (has_prefix "{") (map strip (split_lines text)) ++ strip text ∷ [])

abbrev pub dict_of : Option Json → Option Fields
dict_of (some (obj d)) = some d
dict_of _ = none

-- The first text that parses as an object.
unfoldable pub first_dict : (String → Option Json) → List String → Option Fields
first_dict loads [] = none
first_dict loads (c ∷ rest) =
    let later = first_dict loads rest in elim (dict_of (loads c)) [ some d ↦ some d | none ↦ later ]

-- `_last_json`
unfoldable pub last_json : (String → Option Json) → String → Option Fields
unfolding candidates first_dict
last_json loads text = if is_nil text then none else first_dict loads (reverse (candidates text))

-- A process exits with a code, or dies of a signal.
pub data ExitCode : Type 0 where
  exited signalled : ℕ → ExitCode

pub record RunOutcome : Type 0 where
  pub exit_code : ExitCode
  pub output_tail : String
  pub result : Option Fields
  pub session_id : Json

-- `SubprocessRuntime.parse`
unfoldable pub parse : (String → Option Json) → ExitCode → String → RunOutcome
unfolding last_json
parse loads exit_code tail = record {
  exit_code = exit_code;
  output_tail = tail;
  result = last_json loads tail;
  session_id = null;
}

-- _last_json(tail) or {}
abbrev dict_or_empty : Option Fields → Fields
dict_or_empty none = end
dict_or_empty (some d) = d

abbrev text_or : Json → String → String
text_or (str s) default = s
text_or _ default = default

-- `ClaudeCodeRuntime.parse`: the output is a JSON object that holds the agent's text.
unfoldable pub claude_parse : (String → Option Json) → ExitCode → String → RunOutcome
unfolding last_json
claude_parse loads exit_code tail =
    let data_ = dict_or_empty (last_json loads tail) in
    let text = text_or (get data_ "result") tail in
    record {
      exit_code = exit_code;
      output_tail = clip_end 4000 text;
      result = last_json loads text;
      session_id = get data_ "session_id";
    }

-- key in text
unfoldable pub has_part : String → String → Bool
has_part key String.[] = is_nil key
has_part key (String.◌∷◌ c s) = has_prefix key (String.◌∷◌ c s) || has_part key s

abbrev pub error_keys : List String
error_keys =
    "error" ∷ "exception" ∷ "traceback" ∷ "denied" ∷ "not found" ∷ "failed" ∷ "out of credits"
    ∷ "quota" ∷ "rate limit" ∷ "unauthorized" ∷ "crash" ∷ []

-- list(dict.fromkeys(texts)), with the texts that stand already.
unfoldable pub distinct : List String → List String → List String
distinct seen [] = []
distinct seen (s ∷ rest) =
    let new = distinct (s ∷ seen) rest in
    if any (λ t. t == s) seen then distinct seen rest else s ∷ new

-- `_error_lines`, of the text of the log if it can be read; `lower` is `str.lower`.
unfoldable pub error_lines : (String → String) → ℕ → Option String → List String
unfolding split_lines strip has_part distinct
error_lines lower limit none = []
error_lines lower limit (some log) =
    let lines = drop 1 (split_lines log) in
    let hits = map strip (select (λ s. any (λ k. has_part k (lower s)) error_keys) lines) in
    keep_end limit (distinct [] hits)
