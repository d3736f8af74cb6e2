-- ===== src/Hub/Sending.antt =====
-- `send`, `try_publish` and `flush_outbox` (src/mutmuas/hub.py), `Bus.publish` (src/mutmuas/bus.py).
use mutmuas.Prelude.{ℕ, suc, String, Bool, true, false, Option, none, some, List, [], ◌∷◌, ◌++◌}
use mutmuas.Result.{Result, ok, err, bus_unavailable}
use mutmuas.Exec.{◌>>=◌, ◌>>◌, gets, modify, pure, raise, lift, catch}
use mutmuas.Json.{Json, str, Fields}
use mutmuas.Ids.{parse}
use mutmuas.Bus.{inbox_subject}
use mutmuas.Config.{NodeConfig}
use mutmuas.Protocol.Types.{MessageType}
use mutmuas.Protocol.Envelope.{ArtifactRef, Envelope, protocol_version, validate}
use mutmuas.Ledger.Outbox
use mutmuas.Hub.State.{
  State, World, Outcome, acked, lost, unacked, M, ask, with_unit, on_ledger, transaction,
}

pub data Sent : Type 0 where
  sent queued : Sent

-- What the constructor of `Envelope` is given; the other fields have their defaults.
pub record Draft : Type 0 where
  pub type : MessageType
  pub sender : String
  pub to : String
  pub body : Fields
  pub task_id : Option String
  pub conversation_id : Option String
  pub artifacts : List ArtifactRef
  pub reply_to : Json
  pub priority : String

-- `Envelope(...)`: a fresh message id and, if none is given, a fresh conversation id.
abbrev pub seal : Draft → ℕ → World → Envelope
seal d k w = record {
  type = d.type;
  sender = d.sender;
  to = d.to;
  body = d.body;
  task_id = d.task_id;
  conversation_id = elim d.conversation_id [ none ↦ w.new_conversation_id k | some c ↦ c ];
  message_id = w.new_message_id k;
  timestamp = str (w.iso_time k);
  priority = str d.priority;
  artifacts = d.artifacts;
  reply_to = d.reply_to;
  protocol = str protocol_version;
}

abbrev pub new_envelope : Draft → M Envelope
new_envelope d = do k ← ask; gets (λ (s : State). seal d k s.world)

-- The subject of a message; an address that does not parse raises.
unfoldable pub subject_of : Envelope → NodeConfig → Result String
subject_of env c = elim (parse env.to) [
  | err e ↦ err e
  | ok to ↦ elim (parse env.sender) [
    | err e ↦ err e
    | ok from ↦ ok (inbox_subject (record { project = c.project }) to from.node)
  ]
]

abbrev pub store : String → Envelope → M (Unit {0})
store subject env = modify (λ (s : State). record s { stream = s.stream ++ ((subject, env) ∷ []) })

-- The end of a publication, in the server and at the caller.
abbrev pub deliver : Outcome → String → Envelope → M (Unit {0})
deliver acked subject env = store subject env
deliver lost subject env = raise bus_unavailable
deliver unacked subject env = store subject env >> raise bus_unavailable

-- `Bus.publish`
unfoldable pub publish : Envelope → M (Unit {0})
publish env = do
  c ← gets (λ (s : State). s.cfg)
  subject ← lift (subject_of env c)
  k ← ask
  o ← gets (λ (s : State). s.world.outcome k)
  deliver o subject env

abbrev pub is_connected : M Bool
is_connected = do k ← ask; gets (λ (s : State). s.world.connected k)

-- What `try_publish` does with the outcome of the call.
abbrev pub settle : Envelope → Bool → M Sent
settle env true = do on_ledger (λ t. Outbox.mark_sent t env.message_id); pure sent
settle env false = do
  k ← ask
  text ← gets (λ (s : State). s.world.error_text k)
  on_ledger (λ t. Outbox.mark_send_error t env.message_id text)
  pure queued

abbrev pub attempt : Envelope → Bool → M Sent
attempt env false = pure queued
attempt env true = do
  published ← catch (do publish env; pure true) (λ _. pure false)
  settle env published

unfoldable pub try_publish : Envelope → M Sent
unfolding publish
try_publish env = do up ← is_connected; attempt env up

abbrev pub queue_outgoing : Envelope → M (Unit {0})
queue_outgoing env = transaction (λ t l. with_unit (Outbox.queue t env l))

-- `Hub.send`: the outbox first, then an attempt to publish.
unfoldable pub send : Envelope → M Sent
unfolding try_publish
send env = do lift (validate env); queue_outgoing env; try_publish env

-- The rest of the loop, after an attempt: it ends at the first message that stays queued.
abbrev pub and_then : M ℕ → Sent → M ℕ
and_then rest queued = pure 0
and_then rest sent = do n ← rest; pure (suc n)

-- The loop of `flush_outbox`.
unfoldable pub flush : List Envelope → M ℕ
unfolding try_publish
flush [] = pure 0
flush (env ∷ rest) = do s ← try_publish env; and_then (flush rest) s

unfoldable pub flush_outbox : M ℕ
unfolding flush
flush_outbox = do envs ← gets (λ (s : State). Outbox.outbox 100 s.ledger); flush envs
