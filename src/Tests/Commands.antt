-- ===== src/Tests/Commands.antt =====
-- Commands on small arguments, and a notifier over three polls.
use mutmuas.Prelude.{ℕ, String, ◌≡◌, refl, true, false, none, some, List, [], ◌∷◌, All, has_part}
use mutmuas.Result.{config_error, bus_unavailable, Result, ok, err}
use mutmuas.Json.{str, arr, obj, nil, cons, end, field}
use mutmuas.Config.{agent}
use mutmuas.Ids.{parse, partition, to_text}
use mutmuas.Ledger.Rows.{Message, Ledger}
use mutmuas.Ledger.Rows
use mutmuas.Ledger.Insert.{incoming_row}
use mutmuas.Ledger.Inbox.{unseen}
use mutmuas.Hub.State.{State, acked}
use mutmuas.Hub.Requests.{local_agent}
use mutmuas.Tools.Inbox.{Item, item_of, inbox}
use mutmuas.Cli.Agents.{Yaml, AddArgs, add_agent, is_known, refused}
use mutmuas.Cli.Messages.{parse_kv, goes_on, exits, with_text}
use mutmuas.Cli.Service.{write_unit}
use mutmuas.Cli.Watch.{opened, notified, nothing, with_hub, watch}
use mutmuas.Cli.Once.{IsStored, Follow, watch_once}
use mutmuas.Tests.Samples.{request_message, no_rows, node_with}

-- A configuration with the agent "db", that is read from any text and written as "new".
abbrev yaml : Yaml
yaml = record {
  safe_load = λ text. obj (field "agents" (arr (cons (obj (field "id" (str "db") end)) nil)) end);
  safe_dump = λ d. "new";
}

abbrev strange : AddArgs
strange = record { id = "x y"; mode = "worker"; texts = []; lists = []; replace = false }

abbrev load : String → Result (Unit {0})
load text = err config_error

add_refused : add_agent yaml load strange "old" ≡ (refused, "old")
unfolding add_agent is_known
add_refused = refl

key_without_value :
    parse_kv (λ s. none) ("a=1" ∷ "b" ∷ []) end ≡ exits (with_text "expected key=value, got b")
unfolding parse_kv partition
key_without_value = refl

first_equals_sign : parse_kv (λ s. none) ("a=b=c" ∷ []) end ≡ goes_on (field "a" (str "b=c") end)
unfolding parse_kv partition
first_equals_sign = refl

slept :
    with_hub true 1 (
      err bus_unavailable
      ∷ err bus_unavailable
      ∷ err bus_unavailable
      ∷ err bus_unavailable
      ∷ err bus_unavailable
      ∷ err bus_unavailable
      ∷ ok tt
      ∷ [])
    ≡ (opened, 1 ∷ 2 ∷ 4 ∷ 8 ∷ 16 ∷ 30 ∷ [])
unfolding with_hub
slept = refl

foreign_unit :
    write_unit "/a/node.yaml" false (some "ExecStart=run --config /b/node.yaml") "new" ≡ none
unfolding write_unit has_part
foreign_unit = refl

abbrev row : ℕ → String → Message
row n id = record (incoming_row 5 (record request_message { message_id = id }) no_rows) {
  rowid = n;
  state = Rows.handled;
}

abbrev holds : List Message → State
holds rows = node_with acked (record { messages = rows; tasks = [] })

abbrev later : State
later = holds (row 1 "m-1" ∷ row 2 "m-2" ∷ row 3 "m-3" ∷ [])

abbrev item : State → ℕ → String → Item
item s n id = item_of s.ledger (row n id).envelope

abbrev polls : List State
polls = holds (row 1 "m-1" ∷ []) ∷ holds (row 1 "m-1" ∷ []) ∷ later ∷ []

polls-IsStored : All IsStored polls
polls-IsStored =
    (((λ _. refl), tt), (((λ _. refl), tt), (((λ _. refl), ((λ _. refl), ((λ _. refl), tt))), tt)))

watch_once_example : ((watch "db" 0 polls).1 ≡ none) × Follow 0 (watch "db" 0 polls).0
watch_once_example = watch_once "db" 0 polls polls-IsStored

one_each_time :
    (watch "db" 0 polls).0
    ≡ notified (item (holds (row 1 "m-1" ∷ [])) 1 "m-1" ∷ [])
      ∷ nothing
      ∷ notified (item later 2 "m-2" ∷ item later 3 "m-3" ∷ [])
      ∷ []
unfolding watch inbox unseen local_agent agent parse partition to_text
one_each_time = refl
