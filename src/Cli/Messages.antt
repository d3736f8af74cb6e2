-- ===== src/Cli/Messages.antt =====
-- The commands that make messages and read them (src/mutmuas/cli.py: _parse_kv, _load_file, cmd_send,
-- cmd_submit, cmd_inbox, cmd_history).
use Prim.Native.String.{◌++◌ as ◌⧺◌}
use mutmuas.Prelude.{
  ℕ, String, Bool, true, false, not, ◌&&◌, ◌||◌, Option, none, some, List, [], ◌∷◌, map, ◌==◌,
  if◌then◌else◌, strip,
}
use mutmuas.Result.{Error, Result, ok, err, untyped, protocol_error}
use mutmuas.Json.{
  Json, str, arr, obj, Items, nil, cons, Fields, end, field, get, get_or, has_key, put, without,
  truthy, or_else,
}
use mutmuas.Ids.{partition}
use mutmuas.Bus.Split.{split}
use mutmuas.Config.{contains}
use mutmuas.Protocol.Types.{MessageType, message_type}
use mutmuas.Protocol.Envelope.{Envelope}
use mutmuas.Tools.Inbox.{actionable, wake}

-- A command that does not go on ends the process with a text, with the field names that
-- it does not know, or with an exception.
pub data Exit : Type 0 where
  with_text : String → Exit
  with_keys : List String → Exit
  by_error : Error → Exit

pub data Ends (A : Type 0) : Type 0 where
  goes_on : A → Ends A
  exits : Exit → Ends A

-- The value of a pair: JSON if it parses, else the text.
abbrev value_of : (String → Option Json) → String → Json
value_of loads s = elim (loads s) [ none ↦ str s | some v ↦ v ]

-- `_parse_kv`, with what has been read so far; a pair without "=" ends the process.
unfoldable pub parse_kv : (String → Option Json) → List String → Fields → Ends Fields
unfolding partition
parse_kv loads [] out = goes_on out
parse_kv loads (pair ∷ rest) out = elim (partition b'=' pair) [
  | none ↦ exits (with_text ("expected key=value, got " ⧺ pair))
  | some (k, v) ↦ parse_kv loads rest (put out k (value_of loads v))
]

-- `_load_file`, of what yaml makes of the file, if it is valid.
unfoldable pub load_file : Option Json → Ends Fields
load_file (some (obj d)) = goes_on d
load_file (some _) = exits (with_text "must contain a mapping")
load_file none = exits (with_text "not valid YAML")

pub record SendArgs : Type 0 where
  pub to : String
  pub type : String
  pub objective : Option String
  pub task : Option String

-- What `send` makes of its file: a request with the named fields, or another message about a task.
pub record Sending : Type 0 where
  pub body : Fields
  pub artifacts : Json

pub data Sends : Type 0 where
  request : (objective reason priority : Json) → (artifacts : Json) → (fields : Fields) → Sends
  other : (type task : String) → Sending → Sends

abbrev pub request_fields : List String
request_fields =
    "kind" ∷ "inputs" ∷ "expected_outputs" ∷ "constraints" ∷ "acceptance_criteria" ∷ "timeout_s"
    ∷ "deadline" ∷ []

abbrev pub head_fields : List String
head_fields = "objective" ∷ "reason" ∷ "priority" ∷ []

-- set(body) - set(fields) - {...}
abbrev pub unknown_keys : Fields → List String
unknown_keys end = []
unknown_keys (field k v rest) =
    if contains request_fields k || contains head_fields k
    then unknown_keys rest
    else k ∷ unknown_keys rest

-- {k: body[k] for k in fields if k in body}
abbrev pub picked_from : List String → Fields → Fields
picked_from [] body = end
picked_from (k ∷ ks) body =
    if has_key body k then field k (get body k) (picked_from ks body) else picked_from ks body

abbrev body_of : Fields → Result Sending
body_of data_ =
    if has_key data_ "body"
    then elim (get data_ "body") [
      | obj b ↦ ok (record { body = b; artifacts = get_or data_ "artifacts" (arr nil) })
      | _ ↦ err untyped
    ]
    else ok (record {
      body = without data_ "artifacts";
      artifacts = get_or data_ "artifacts" (arr nil);
    })

abbrev text_or_empty : Option String → Json
text_or_empty none = str ""
text_or_empty (some s) = str s

abbrev as_request : SendArgs → Sending → Ends Sends
as_request args s = elim (unknown_keys s.body) [
  | [] ↦ goes_on (
      request (or_else (get s.body "objective") (text_or_empty args.objective))
        (or_else (get s.body "reason") (str "")) (get_or s.body "priority" (str "normal"))
        s.artifacts (picked_from request_fields s.body))
  | k ∷ ks ↦ exits (with_keys (k ∷ ks))
]

abbrev as_other : String → Option String → Sending → Ends Sends
as_other type none s = exits (with_text (type ⧺ " needs --task"))
as_other type (some t) s =
    if t == "" then exits (with_text (type ⧺ " needs --task")) else goes_on (other type t s)

abbrev sent_as : SendArgs → String → Result Sending → Ends Sends
sent_as args type (err e) = exits (by_error e)
sent_as args type (ok s) =
    if type == "REQUEST" then as_request args s else as_other type args.task s

-- `cmd_send`, up to the call of the hub; `upper` is `str.upper`.
unfoldable pub cmd_send : (String → String) → SendArgs → Fields → Ends Sends
cmd_send upper args data_ = sent_as args (upper args.type) (body_of data_)

pub record SubmitArgs : Type 0 where
  pub status : Option String
  pub summary : Option String
  pub artifact : List String

pub record Submission : Type 0 where
  pub status : Json
  pub summary : Json
  pub artifacts : Items
  pub options : Fields

-- args.x or data.pop("x", None)
abbrev given_or : Option String → Json → Json
given_or none v = v
given_or (some s) v = if s == "" then v else str s

abbrev uri_items : List String → Items
uri_items [] = nil
uri_items (u ∷ us) = cons (obj (field "uri" (str u) end)) (uri_items us)

abbrev append_items : Items → Items → Items
append_items nil ys = ys
append_items (cons x xs) ys = cons x (append_items xs ys)

abbrev option_fields : List String
option_fields = "outputs" ∷ "evidence" ∷ "limitations" ∷ "follow_up" ∷ []

abbrev submits : Fields → Json → Json → Items → Ends Submission
submits data_ status summary artifacts =
    if not (truthy status && truthy summary)
    then exits (with_text "--status and --summary (or a --file with them) are required")
    else goes_on (record {
      status = status;
      summary = summary;
      artifacts = artifacts;
      options = picked_from option_fields data_;
    })

-- `cmd_submit`, up to the call of the tool.
unfoldable pub cmd_submit : SubmitArgs → Fields → Ends Submission
cmd_submit args data_ = elim (get_or data_ "artifacts" (arr nil)) [
  | arr xs ↦
      submits data_ (given_or args.status (get data_ "status"))
        (given_or args.summary (get data_ "summary")) (append_items xs (uri_items args.artifact))
  | _ ↦ exits (by_error untyped)
]

-- The message types that `--only` names; a name that is no type selects nothing.
abbrev known_types : List String → List MessageType
known_types [] = []
known_types (s ∷ rest) = elim (message_type s) [
  | none ↦ known_types rest
  | some t ↦ t ∷ known_types rest
]

unfoldable pub only_types : (String → String) → Option String → Option (List MessageType)
unfolding split strip
only_types upper none = none
only_types upper (some only) =
    if only == ""
    then none
    else if only == "actionable"
    then some actionable
    else if only == "wake"
    then some wake
    else some (known_types (map (λ t. upper (strip t)) (split b',' only)))

-- What `cmd_inbox` ends with: status 3 tells a watcher that it waited in vain.
unfoldable pub inbox_exit {ℓ} : {A : Type ℓ} → Option ℕ → List A → Option ℕ
inbox_exit none rows = none
inbox_exit (some wait) [] = some 3
inbox_exit (some wait) (_ ∷ _) = none

-- A row of `cmd_history`: a message that cannot be read is shown by its subject.
pub data HistoryRow : Type 0 where
  invalid : String → HistoryRow
  shown : Envelope → HistoryRow

abbrev is_about : Option String → Envelope → Bool
is_about none env = true
is_about (some t) env = t == "" || elim env.task_id [ none ↦ false | some id ↦ id == t ]

-- `cmd_history`: the rows of the stream; only a `ProtocolError` is caught.
unfoldable pub history_rows :
    (String × Json → Result Envelope)
    → Option String
    → List (String × Json)
    → Result (List HistoryRow)
history_rows read task [] = ok []
history_rows read task ((subject, raw) ∷ rest) =
    do_row (read (subject, raw)) (history_rows read task rest)
  where
    do_row : Result Envelope → Result (List HistoryRow) → Result (List HistoryRow)
    do_row (ok env) (ok rows) = if is_about task env then ok (shown env ∷ rows) else ok rows
    do_row (ok env) (err e) = err e
    do_row (err (protocol_error c)) (ok rows) = ok (invalid subject ∷ rows)
    do_row (err (protocol_error c)) (err e) = err e
    do_row (err e) _ = err e
