-- ===== src/Ledger/Insert.antt =====
-- INSERT OR IGNORE into the two tables (src/mutmuas/ledger.py: _queue, ingest, _insert_task).
use mutmuas.Prelude.{
  ℕ, suc, String, Bool, true, false, none, some, List, [], ◌∷◌, ◌++◌, any, ltb, if◌then◌else◌,
}
use mutmuas.Result.{Result, ok, err, type_error}
use mutmuas.Json.{Json, arr, obj, get}
use mutmuas.Protocol.Types.{TaskState}
use mutmuas.Protocol.Envelope.{Envelope}
use mutmuas.Ledger.Rows.{
  inbound, outbound, Message, queued, new, Role, Task, Ledger, has_message_key, has_task_key,
}

-- One more than the greatest rowid.
abbrev pub next_rowid : List Message → ℕ
next_rowid [] = 1
next_rowid (m ∷ l) = let n = next_rowid l in if ltb m.rowid n then n else suc m.rowid

-- The row, unless the key is taken; and whether a row was inserted (`cur.rowcount == 1`).
unfoldable pub insert_message : Message → Ledger → Ledger × Bool
insert_message m l =
    if any (has_message_key m.message_id m.direction) l.messages
    then (l, false)
    else (record l { messages = l.messages ++ (m ∷ []) }, true)

unfoldable pub insert_row : Task → Ledger → Ledger × Bool
insert_row t l =
    if any (has_task_key t.task_id t.role) l.tasks
    then (l, false)
    else (record l { tasks = l.tasks ++ (t ∷ []) }, true)

abbrev pub outgoing_row : ℕ → Envelope → Ledger → Message
outgoing_row now env l = record {
  rowid = next_rowid l.messages;
  message_id = env.message_id;
  direction = outbound;
  local_agent = env.sender;
  peer = env.to;
  type = env.type;
  task_id = env.task_id;
  conversation_id = env.conversation_id;
  envelope = env;
  state = queued;
  seen = true;
  attempts = 0;
  last_error = none;
  created_at = now;
  updated_at = now;
}

abbrev pub incoming_row : ℕ → Envelope → Ledger → Message
incoming_row now env l = record {
  rowid = next_rowid l.messages;
  message_id = env.message_id;
  direction = inbound;
  local_agent = env.to;
  peer = env.sender;
  type = env.type;
  task_id = env.task_id;
  conversation_id = env.conversation_id;
  envelope = env;
  state = new;
  seen = false;
  attempts = 0;
  last_error = none;
  created_at = now;
  updated_at = now;
}

abbrev pub task_row : ℕ → Envelope → Role → String → TaskState → String → Task
task_row now req role local_agent status task_id = record {
  task_id = task_id;
  role = role;
  local_agent = local_agent;
  requester = req.sender;
  owner = req.to;
  parent_task = get req.body "parent_task";
  conversation_id = req.conversation_id;
  status = status;
  result_status = none;
  request = req.body;
  result = none;
  result_draft = none;
  input_refs = req.artifacts;
  output_refs = [];
  last_message = some req.message_id;
  attempts = 0;
  created_at = now;
  updated_at = now;
}

-- sqlite3 binds no list and no object to a parameter.
abbrev pub is_bindable : Json → Bool
is_bindable (arr _) = false
is_bindable (obj _) = false
is_bindable _ = true

-- `_insert_task`: a missing task id violates NOT NULL, and OR IGNORE skips the row.
unfoldable pub insert_task :
    ℕ → Envelope → Role → String → TaskState → Ledger → Result (Ledger × Bool)
unfolding insert_row
insert_task now req role local_agent status l =
    if is_bindable (get req.body "parent_task")
    then ok (elim req.task_id [
      | none ↦ (l, false)
      | some id ↦ insert_row (task_row now req role local_agent status id) l
    ])
    else err type_error
