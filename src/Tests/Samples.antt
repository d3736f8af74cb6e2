-- ===== src/Tests/Samples.antt =====
-- Two nodes, their agents, a few messages and a ledger.
use mutmuas.Prelude.{true, false, none, some, [], ◌∷◌}
use mutmuas.Json.{null, str, Fields, end, field}
use mutmuas.Config.{AgentConfig, NodeConfig}
use mutmuas.Protocol.Types.{MessageType, TaskState}
use mutmuas.Protocol.Envelope.{ArtifactRef, Envelope}
use mutmuas.Ledger.Rows.{Task, Ledger, Role, owner}
use mutmuas.Ledger.Insert.{outgoing_row, task_row}
use mutmuas.Hub.State.{World, State, Outcome}

abbrev pub request_fields : Fields
request_fields =
    field "objective" (str "Count the rows")
      (field "reason" (str "Audit") (field "kind" (str "query") end))

abbrev pub request_message : Envelope
request_message = record {
  type = MessageType.request;
  sender = "B:ana";
  to = "A:db";
  body = request_fields;
  task_id = some "task-1";
  conversation_id = "conv-1";
  message_id = "m-1";
  timestamp = str "2026-01-01T00:00:00Z";
  priority = str "normal";
  artifacts = [];
  reply_to = null;
  protocol = str "mutmuas/1";
}

abbrev pub patch : ArtifactRef
patch = record {
  uri = "mm://artifacts/patch";
  id = str "patch";
  size = null;
  sha256 = str "00ff";
  media_type = null;
  description = str "";
}

abbrev pub result_message : Envelope
result_message = record {
  type = MessageType.result;
  sender = "A:db";
  to = "B:ana";
  body = field "status" (str "complete") (field "summary" (str "12 rows") end);
  task_id = some "task-1";
  conversation_id = "conv-1";
  message_id = "m-2";
  timestamp = str "2026-01-01T00:01:00Z";
  priority = str "normal";
  artifacts = patch ∷ [];
  reply_to = str "m-1";
  protocol = str "mutmuas/1";
}

abbrev pub no_rows : Ledger
no_rows = record { messages = []; tasks = [] }

abbrev pub one_queued : Ledger
one_queued = record { messages = outgoing_row 5 request_message no_rows ∷ []; tasks = [] }

abbrev pub task_in : TaskState → Role → Task
task_in s r = task_row 5 request_message r "A:db" s "task-1"

abbrev pub with_task : TaskState → Ledger
with_task s = record { messages = one_queued.messages; tasks = task_in s owner ∷ [] }

abbrev pub database : AgentConfig
database = record {
  id = "db";
  mode = "worker";
  runtime = some "script";
  role = "database";
  display = "";
  provider = "";
  model = "";
  description = "";
  workdir = ".";
  repo = "";
  capabilities = "sql" ∷ [];
  permissions = "READ" ∷ [];
  accept_from = "B:*" ∷ [];
  max_concurrent = 1;
  task_timeout_s = 60;
  max_attempts = 2;
  command = "run" ∷ [];
  extra_args = [];
  inherit_user_config = false;
  network = false;
  notify = [];
  env = [];
}

abbrev pub node_a : NodeConfig
node_a = record { project = "demo"; node = "A"; agents = database ∷ []; path = none }

-- A bus that is up, with one end for every publication.
abbrev pub always : Outcome → World
always o = record {
  time = λ k. k;
  iso_time = λ k. "2026-01-01T00:02:00Z";
  new_message_id = λ k. "m-new";
  new_conversation_id = λ k. "conv-new";
  new_task_id = λ k. "task-new";
  connected = λ k. true;
  outcome = λ k. o;
  error_text = λ k. "timeout";
  alias_of = λ k s. none;
}

abbrev pub node_with : Outcome → Ledger → State
node_with o l = record {
  cfg = node_a;
  world = always o;
  asked = 0;
  ledger = l;
  stream = [];
  records = [];
  queue = [];
  queued = [];
  running = [];
  cancel_requested = [];
}
