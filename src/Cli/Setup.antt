-- ===== src/Cli/Setup.antt =====
-- `agent-node init` and `join` (src/mutmuas/cli.py: node_init, node_join), over the text of the
-- configuration file. Paths are given resolved.
use Prim.Native.String.{◌++◌ as ◌⧺◌}
use mutmuas.Prelude.{
  String, Bool, false, not, Option, none, some, List, [], ◌∷◌, ◌==◌, if◌then◌else◌,
}
use mutmuas.Result.{Error, attribute_error, type_error, Result, ok, err, ◌>>=◌}
use mutmuas.Json.{Json, str, arr, obj, Items, nil, cons, Fields, end, field, get, has_key, put}
use mutmuas.Cli.Agents.{Yaml}

pub record InitArgs : Type 0 where
  pub project : String
  pub node : String
  pub server : String
  pub description : Option String
  pub data_dir : Option String
  pub credentials : Option String
  pub ca : Option String
  pub force : Bool
  pub bare : Bool

-- a or b, for an argument that may be missing
abbrev pub text_or : Option String → String → String
text_or none b = b
text_or (some a) b = if a == "" then b else a

abbrev strs : List String → Json
strs l = arr (texts l)
  where
    texts : List String → Items
    texts [] = nil
    texts (t ∷ rest) = cons (str t) (texts rest)

abbrev main_agent : InitArgs → String → Fields
main_agent args cwd = field "id" (str "main") (
    field "display" (str (args.node ⧺ ":a1")) (
      field "mode" (str "interactive") (
        field "role" (str "lead") (
          field "provider" (str "anthropic") (
            field "workdir" (str cwd) (
              field "permissions" (strs ("READ" ∷ "REQUEST_TASK" ∷ "PUBLISH_ARTIFACT" ∷ []))
                end))))))

abbrev worker_agent : InitArgs → String → Fields
worker_agent args cwd = field "id" (str "worker") (
    field "display" (str (args.node ⧺ ":b1")) (
      field "mode" (str "worker") (
        field "runtime" (str "claude-code") (
          field "provider" (str "anthropic") (
            field "role" (str "general-worker") (
              field "workdir" (str cwd) (
                field "capabilities" (arr nil) (
                  field "accept_from" (strs ("*" ∷ [])) (
                    field "permissions" (strs ("READ" ∷ "PUBLISH_ARTIFACT" ∷ "REQUEST_TASK" ∷ []))
                      end)))))))))

abbrev first_agents : InitArgs → String → Json
first_agents args cwd =
    if args.bare
    then arr nil
    else arr (cons (obj (main_agent args cwd)) (cons (obj (worker_agent args cwd)) nil))

-- data["nats"][key] = value, for a value that is given
abbrev pub with_text : String → Option String → Fields → Fields
with_text k none d = d
with_text k (some v) d = if v == "" then d else put d k (str v)

abbrev nats_of : InitArgs → Fields
nats_of args =
    with_text "tls_ca" args.ca (
      with_text "credentials_file" args.credentials (field "servers" (strs (args.server ∷ [])) end))

unfoldable pub init_data : InitArgs → String → String → Fields
init_data args home cwd = field "project" (str args.project) (
    field "node" (str args.node) (
      field "description" (str (text_or args.description "")) (
        field "data_dir" (str (text_or args.data_dir (home ⧺ "/data"))) (
          field "nats" (obj (nats_of args))
            (field "resources" (obj end) (field "agents" (first_agents args cwd) end))))))

-- `node_init`: the text of the file afterwards, or none if the command refuses to overwrite it.
unfoldable pub node_init : Yaml → InitArgs → String → String → Option String → Option String
unfolding init_data
node_init yaml args home cwd existing =
    let written = some (yaml.safe_dump (init_data args home cwd)) in
    elim existing [ none ↦ written | some _ ↦ if args.force then written else none ]

pub record JoinArgs : Type 0 where
  pub server : Option String
  pub credentials : Option String
  pub project : Option String
  pub node : Option String

-- data.setdefault("nats", {})
abbrev with_nats : Fields → Fields
with_nats d = if has_key d "nats" then d else put d "nats" (obj end)

abbrev is_given : Option String → Bool
is_given none = false
is_given (some s) = not (s == "")

abbrev with_server : Option String → Fields → Fields
with_server none n = n
with_server (some s) n = if s == "" then n else put n "servers" (strs (s ∷ []))

-- What `join` sets below `nats`: a value that is no mapping takes no item.
abbrev join_nats : JoinArgs → Json → Result Json
join_nats args (obj n) =
    ok (obj (with_text "credentials_file" args.credentials (with_server args.server n)))
join_nats args v =
    if is_given args.server
    then err type_error
    else if is_given args.credentials
    then err type_error
    else ok v

unfoldable pub join_data : JoinArgs → Json → Result Fields
join_data args (obj d) = do
  let named = with_nats d
  nats ← join_nats args (get named "nats")
  ok (with_text "node" args.node (with_text "project" args.project (put named "nats" nats)))
join_data args v = err attribute_error

-- How `join` ends: with the nodes that the server knows, with the configuration saved and the server out
-- of reach, or with an exception.
pub data Joined : Type 0 where
  joined : List String → Joined
  unreachable : Joined
  raised : Error → Joined

abbrev connected : Result (Unit {0}) → Option (List String) → Joined
connected (err e) nodes = raised e
connected (ok _) none = unreachable
connected (ok _) (some nodes) = joined nodes

abbrev join_with :
    Yaml
    → (String → Result (Unit {0}))
    → Option (List String)
    → String
    → Result Fields
    → Joined × String
join_with yaml load nodes text (err e) = (raised e, text)
join_with yaml load nodes text (ok d) =
    (connected (load (yaml.safe_dump d)) nodes, yaml.safe_dump d)

-- `node_join`: unlike `add-agent`, it leaves what it wrote when `load_config` refuses it. `nodes` is what
-- the server answers, if it can be reached.
unfoldable pub node_join :
    Yaml → (String → Result (Unit {0})) → JoinArgs → Option (List String) → String → Joined × String
unfolding join_data
node_join yaml load args nodes text =
    join_with yaml load nodes text (join_data args (yaml.safe_load text))
