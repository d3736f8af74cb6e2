-- ===== src/Cli/Agents.antt =====
-- `agent-node add-agent` (src/mutmuas/cli.py: node_add_agent), over the text of the configuration file.
use mutmuas.Prelude.{
  String, Bool, true, false, Option, none, some, List, [], ◌∷◌, map, ◌==◌, if◌then◌else◌,
}
use mutmuas.Result.{
  Error, bad_address, config_error, value_error, attribute_error, untyped, Result, ok, err,
}
use mutmuas.Json.{
  Json, str, arr, obj, Items, nil, cons, Fields, end, field, get, put, items, truthy, append_item,
}

-- What yaml makes of a text, and the text that it makes of a mapping.
pub record Yaml : Type 0 where
  pub safe_load : String → Json
  pub safe_dump : Fields → String

pub record AddArgs : Type 0 where
  pub id : String
  pub mode : String
  -- runtime, role, provider, model, display, workdir and repo, by their names
  pub texts : List (String × Option String)
  -- capabilities, permissions, accept_from and notify, by their names
  pub lists : List (String × List String)
  pub replace : Bool

-- What the command ends with; `refused` is the exit with an error text.
pub data Added : Type 0 where
  unchanged added replaced refused : Added
  raised : Error → Added

-- yaml.safe_load(...) or {}
abbrev pub mapping : Json → Result Fields
mapping (obj d) = ok d
mapping v = if truthy v then err attribute_error else ok end

-- data.setdefault("agents", []) or []
abbrev pub agent_items : Json → Result Items
agent_items (arr xs) = ok xs
agent_items v = if truthy v then err untyped else ok nil

abbrev pub has_id : String → Json → Bool
has_id id (str s) = s == id
has_id id _ = false

-- next((a for a in agents if a.get("id") == args.id), None), as whether there is one
unfoldable pub is_known : String → Items → Result Bool
is_known id nil = ok false
is_known id (cons (obj a) rest) = if has_id id (get a "id") then ok true else is_known id rest
is_known id (cons _ rest) = err attribute_error

-- agents[agents.index(existing)] = agent
abbrev pub put_agent : String → Fields → Items → Items
put_agent id agent nil = nil
put_agent id agent (cons (obj a) rest) =
    if has_id id (get a "id") then cons (obj agent) rest else cons (obj a) (put_agent id agent rest)
put_agent id agent (cons v rest) = cons v (put_agent id agent rest)

abbrev with_texts : List (String × Option String) → Fields → Fields
with_texts [] d = d
with_texts ((k, none) ∷ rest) d = with_texts rest d
with_texts ((k, some v) ∷ rest) d = with_texts rest (put d k (str v))

abbrev with_lists : List (String × List String) → Fields → Fields
with_lists [] d = d
with_lists ((k, []) ∷ rest) d = with_lists rest d
with_lists ((k, v ∷ vs) ∷ rest) d = with_lists rest (put d k (arr (items (map str (v ∷ vs)))))

abbrev pub agent_of : AddArgs → Fields
agent_of args =
    with_lists args.lists
      (with_texts args.texts (field "id" (str args.id) (field "mode" (str args.mode) end)))

abbrev pub is_caught : Error → Bool
is_caught config_error = true
is_caught value_error = true
is_caught bad_address = true
is_caught _ = false

-- load_config(path), and the old text again when it refuses the new one.
abbrev pub settled : Result (Unit {0}) → Added → String → String → Added × String
settled (ok u) done old new = (done, new)
settled (err e) done old new = if is_caught e then (refused, old) else (raised e, new)

abbrev pub checked : (String → Result (Unit {0})) → Added → String → String → Added × String
checked load done old new = settled (load new) done old new

abbrev pub changed_data : Fields → Items → Fields
changed_data data_ agents = put data_ "agents" (arr agents)

abbrev pub add_to :
    Yaml → (String → Result (Unit {0})) → AddArgs → String → Fields → Items → Bool → Added × String
add_to yaml load args text data_ agents true =
    if args.replace
    then checked load replaced text
        (yaml.safe_dump (changed_data data_ (put_agent args.id (agent_of args) agents)))
    else (unchanged, text)
add_to yaml load args text data_ agents false =
    checked load added text
      (yaml.safe_dump (changed_data data_ (append_item agents (obj (agent_of args)))))

abbrev pub add_known :
    Yaml
    → (String → Result (Unit {0}))
    → AddArgs
    → String
    → Fields
    → Items
    → Result Bool
    → Added × String
add_known yaml load args text data_ agents (err e) = (raised e, text)
add_known yaml load args text data_ agents (ok known) =
    add_to yaml load args text data_ agents known

abbrev pub add_listed :
    Yaml → (String → Result (Unit {0})) → AddArgs → String → Fields → Result Items → Added × String
add_listed yaml load args text data_ (err e) = (raised e, text)
add_listed yaml load args text data_ (ok agents) =
    add_known yaml load args text data_ agents (is_known args.id agents)

abbrev pub add_mapped :
    Yaml → (String → Result (Unit {0})) → AddArgs → String → Result Fields → Added × String
add_mapped yaml load args text (err e) = (raised e, text)
add_mapped yaml load args text (ok data_) =
    add_listed yaml load args text data_ (agent_items (get data_ "agents"))

-- `node_add_agent`: how it ends, and the text that the file has then. `load` is `load_config`.
unfoldable pub add_agent : Yaml → (String → Result (Unit {0})) → AddArgs → String → Added × String
unfolding is_known
add_agent yaml load args text = add_mapped yaml load args text (mapping (yaml.safe_load text))
