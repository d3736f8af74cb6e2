-- ===== src/Config/Load.antt =====
-- From a configuration file to the mappings that its records are made of (src/mutmuas/config.py: _build,
-- load_config, find_config, data_path). The values of the mappings are not checked against the types of the
-- records; the credentials that a NatsConfig reads when it is made stand in Config/Nats.
use Prim.Native.String.{◌++◌ as ◌⧺◌}
use mutmuas.Prelude.{
  String, Bool, true, not, ◌&&◌, Option, none, some, List, [], ◌∷◌, all, any, ◌==◌, if◌then◌else◌,
  has_prefix,
}
use mutmuas.Result.{Result, ok, err, config_error, type_error, attribute_error, ◌>>=◌}
use mutmuas.Json.{
  Json, null, str, arr, obj, Items, nil, cons, Fields, end, field, get, get_or, has_key, put,
  without, truthy,
}

-- What the machine makes of a path: its variables and home replaced, and a relative path resolved against
-- the directory of the configuration.
pub record Paths : Type 0 where
  pub expanded : String → String
  pub resolved : String → String

-- The fields of a record, and those without a default.
pub record Shape : Type 0 where
  pub known : List String
  pub required : List String

abbrev pub agent_shape : Shape
agent_shape = record {
  known =
      "id" ∷ "mode" ∷ "runtime" ∷ "role" ∷ "display" ∷ "provider" ∷ "model" ∷ "description"
      ∷ "workdir" ∷ "repo" ∷ "capabilities" ∷ "permissions" ∷ "accept_from" ∷ "max_concurrent"
      ∷ "task_timeout_s" ∷ "max_attempts" ∷ "command" ∷ "extra_args" ∷ "inherit_user_config"
      ∷ "network" ∷ "notify" ∷ "env" ∷ [];
  required = "id" ∷ [];
}

abbrev pub nats_shape : Shape
nats_shape = record {
  known =
      "servers" ∷ "user" ∷ "password" ∷ "password_env" ∷ "token" ∷ "token_env" ∷ "credentials_file"
      ∷ "tls_ca" ∷ "tls_cert" ∷ "tls_key" ∷ [];
  required = [];
}

abbrev pub node_shape : Shape
node_shape = record {
  known =
      "project" ∷ "node" ∷ "nats" ∷ "data_dir" ∷ "description" ∷ "resources" ∷ "heartbeat_s"
      ∷ "message_retention_days" ∷ "artifact_max_mb" ∷ "agents" ∷ "path" ∷ [];
  required = "project" ∷ "node" ∷ [];
}

-- Whether set(raw) - set(known) is empty.
abbrev all_known : List String → Fields → Bool
all_known known end = true
all_known known (field k v rest) = any (λ n. n == k) known && all_known known rest

abbrev made : Shape → Fields → Result Fields
made s d =
    if not (all_known s.known d)
    then err config_error
    else if all (has_key d) s.required
    then ok d
    else err type_error

-- `_build`: a missing field is the TypeError of the constructor.
unfoldable pub build : Shape → Json → Result Fields
build s null = made s end
build s (obj d) = made s d
build s v = err config_error

-- `rel`; a value that is no text is the TypeError of `os.path.expandvars`.
unfoldable pub rel : Paths → Json → Result Json
rel p (str s) =
    if s == ""
    then ok (str s)
    else if has_prefix "/" (p.expanded s)
    then ok (str (p.expanded s))
    else ok (str (p.resolved (p.expanded s)))
rel p v = if truthy v then err type_error else ok v

-- d[k] = rel(d[k]), for a value that is truthy
abbrev rel_key : Paths → String → Fields → Result Fields
rel_key p k d = if truthy (get d k) then (rel p (get d k) >>= λ v. ok (put d k v)) else ok d

abbrev place_agent : Paths → Json → Result Json
place_agent p (obj a) = do
  w ← rel p (get_or a "workdir" (str "."))
  b ← rel_key p "repo" (put a "workdir" w)
  ok (obj b)
place_agent p v = ok v

unfoldable pub place_agents : Paths → Items → Result Items
unfolding rel
place_agents p nil = ok nil
place_agents p (cons a rest) = do x ← place_agent p a; xs ← place_agents p rest; ok (cons x xs)

abbrev keys : Fields → Items
keys end = nil
keys (field k v rest) = cons (str k) (keys rest)

-- What a loop over the agents goes through. Each character of a text is refused as the text is here.
abbrev listed : Json → Result Items
listed (arr xs) = ok xs
listed (obj d) = ok (keys d)
listed (str s) = if s == "" then ok nil else ok (cons (str s) nil)
listed v = if truthy v then err type_error else ok nil

abbrev or_mapping : Json → Json
or_mapping v = if truthy v then v else obj end

abbrev place_nats : Paths → Json → Result Json
place_nats p (obj n) = do
  a ← rel_key p "credentials_file" n
  b ← rel_key p "tls_ca" a
  c ← rel_key p "tls_cert" b
  d ← rel_key p "tls_key" c
  ok (obj d)
place_nats p v = ok v

unfoldable pub build_all : Shape → Items → Result (List Fields)
unfolding build
build_all s nil = ok []
build_all s (cons v rest) = do d ← build s v; ds ← build_all s rest; ok (d ∷ ds)

pub record Parts : Type 0 where
  pub agents : List Fields
  pub nats : Fields
  pub node : Fields

-- `load_config` of a mapping, up to its `validate`; "nats" and "agents" are set again after the node is made.
abbrev load_mapping : Paths → Fields → Result Parts
load_mapping p raw = do
  found ← listed (get_or raw "agents" (arr nil))
  placed ← place_agents p found
  nats ← place_nats p (or_mapping (get_or raw "nats" (obj end)))
  agents ← build_all agent_shape placed
  n ← build nats_shape nats
  c ← build node_shape (obj (without (without raw "agents") "nats"))
  ok (record { agents = agents; nats = n; node = c })

-- What yaml made of the file, if there is one: `pop` with a default is a method of mappings only.
unfoldable pub load : Paths → Option Json → Result Parts
unfolding place_agents build_all build rel
load p none = err config_error
load p (some (obj raw)) = load_mapping p raw
load p (some (arr (cons _ _))) = err type_error
load p (some v) = if truthy v then err attribute_error else load_mapping p end

-- `find_config`, before the home is replaced.
unfoldable pub find_config : Option String → Option String → String → String
find_config explicit from_env home = elim explicit [
  | some e ↦ if e == "" then second else e
  | none ↦ second
]
  where
    second : String
    second = elim from_env [
      | some e ↦ if e == "" then home ⧺ "/node.yaml" else e
      | none ↦ home ⧺ "/node.yaml"
    ]

-- `NodeConfig.data_path`; `home` is the default directory.
unfoldable pub data_path : Paths → String → (project node data_dir : String) → String
data_path p home project node data_dir =
    let base = if data_dir == "" then home ⧺ "/" ⧺ project ⧺ "/" ⧺ node else data_dir in
    p.resolved (p.expanded base)
