-- ===== src/Hub/Requests.antt =====
-- `local_agent`, `resolve`, `request` and `reply` (src/mutmuas/hub.py).
use mutmuas.Prelude.{String, not, Option, none, some, List, [], ◌∷◌, select, ◌==◌, if◌then◌else◌}
use mutmuas.Result.{Result, ok, err, Error, permission_denied, key_error}
use mutmuas.Exec.{◌>>=◌, ◌>>◌, gets, pure, raise, lift}
use mutmuas.Json.{null, str, Fields, put, get_or}
use mutmuas.Ids.{Address, parse, partition, to_text}
use mutmuas.Config
use mutmuas.Config.{AgentConfig, NodeConfig, has}
use mutmuas.Protocol.Types.{MessageType, Permission}
use mutmuas.Protocol.Envelope.{ArtifactRef, check_kind}
use mutmuas.Protocol.Codec.{json_of}
use mutmuas.Ledger.Tasks.{any_task}
use mutmuas.Hub.State.{State, M, ask}
use mutmuas.Hub.Sending.{Sent, new_envelope, is_connected, send}

abbrev first_agent : List AgentConfig → List AgentConfig → Result AgentConfig
first_agent [] [] = err permission_denied
first_agent [] (a ∷ _) = ok a
first_agent (a ∷ _) _ = ok a

abbrev acting : NodeConfig → Address → Result (Address × AgentConfig)
acting c addr =
    if not (addr.node == c.node)
    then err permission_denied
    else elim (Config.agent c addr.agent) [ err e ↦ err e | ok a ↦ ok (addr, a) ]

abbrev address_on : NodeConfig → String → Result Address
address_on c who = elim (partition b':' who) [
  | none ↦ ok (record { node = c.node; agent = who })
  | some _ ↦ parse who
]

-- `Hub.local_agent`
unfoldable pub local_agent : NodeConfig → Option String → Result (Address × AgentConfig)
local_agent c none =
    elim (first_agent (select (λ (a : AgentConfig). a.mode == "interactive") c.agents) c.agents) [
      | err e ↦ err e
      | ok a ↦ ok (record { node = c.node; agent = a.id }, a)
    ]
local_agent c (some who) = elim (address_on c who) [ err e ↦ err e | ok addr ↦ acting c addr ]

-- `Hub.resolve`: the address that the registry has for an alias, if it answers.
unfoldable pub resolve : String → M String
resolve target = do
  addr ← lift (parse target)
  up ← is_connected
  k ← ask
  card ← gets (λ (s : State). s.world.alias_of k target)
  pure (elim card [ none ↦ to_text addr | some a ↦ (if up then a else to_text addr) ])

abbrev given : Option String → Fields → Fields
given none body = body
given (some p) body = if p == "" then body else put body "parent_task" (str p)

-- task_id or new_task_id()
abbrev pub task_id_or_new : Option String → M String
task_id_or_new none = do k ← ask; gets (λ (s : State). s.world.new_task_id k)
task_id_or_new (some id) =
    if id == "" then (do k ← ask; gets (λ (s : State). s.world.new_task_id k)) else pure id

-- `Hub.request`
unfoldable pub request :
    Option String
    → String
    → Fields
    → List ArtifactRef
    → Option String
    → String
    → Option String
    → M (String × Sent)
unfolding local_agent resolve send
request sender to body artifacts parent_task priority task_id = do
  c ← gets (λ (s : State). s.cfg)
  who ← lift (local_agent c sender)
  if has who.1 Permission.request_task then pure tt else raise permission_denied
  lift (check_kind (get_or body "kind" (str "query")))
  target ← resolve to
  id ← task_id_or_new task_id
  env ← new_envelope (record {
    type = MessageType.request;
    sender = to_text who.0;
    to = target;
    body = given parent_task body;
    task_id = some id;
    conversation_id = none;
    artifacts = artifacts;
    reply_to = null;
    priority = priority;
  })
  s ← send env
  pure (id, s)

abbrev pub or_raise : {A : Type 0} → Option A → Error → M A
or_raise none e = raise e
or_raise (some a) e = pure a

-- `Hub.reply`: a message to the other party of a task.
unfoldable pub reply : String → String → MessageType → Fields → List ArtifactRef → M Sent
unfolding local_agent send
reply local task_id type body artifacts = do
  c ← gets (λ (s : State). s.cfg)
  who ← lift (local_agent c (some local))
  found ← gets (λ (s : State). any_task task_id s.ledger)
  t ← or_raise found key_error
  env ← new_envelope (record {
    type = type;
    sender = to_text who.0;
    to = (if t.owner == to_text who.0 then t.requester else t.owner);
    body = body;
    task_id = some task_id;
    conversation_id = some t.conversation_id;
    artifacts = artifacts;
    reply_to = json_of t.last_message;
    priority = "normal";
  })
  send env
