-- ===== src/Tools/Requests.antt =====
-- Requests and artifacts of an agent (src/mutmuas/tools.py: send_request, publish_artifact).
use Prim.Native.String.{◌++◌ as ◌⧺◌}
use mutmuas.Prelude.{String, Bool, true, false, Option, none, some, List, ◌==◌, if◌then◌else◌}
use mutmuas.Result.{Result, permission_denied}
use mutmuas.Exec.{◌>>=◌, ◌>>◌, gets, pure, raise, lift}
use mutmuas.Json.{Json, items}
use mutmuas.Config.{has}
use mutmuas.Protocol.Types.{Permission}
use mutmuas.Protocol.Envelope.{ArtifactRef}
use mutmuas.Protocol.Codec.{refs_from, ref_to_dict}
use mutmuas.Protocol.Bodies.{RequestOptions, request_body}
use mutmuas.Hub.State.{State, M}
use mutmuas.Hub.Sending.{Sent, sent, queued}
use mutmuas.Hub.Requests.{local_agent, request, resolve}

-- parent_task or _current_task()
abbrev parent_or : Option String → Option String → Option String
parent_or none current = current
parent_or (some p) current = if p == "" then current else some p

-- The note on a delivery: whether it was sent, and the target's card, with whether it is online.
abbrev pub delivery_note : Sent → Option Bool → Option String
delivery_note queued card =
    some "message bus unreachable; kept in the local outbox and sent automatically on reconnect"
delivery_note sent none =
    some "target agent is not registered yet; the message is stored durably until it comes online"
delivery_note sent (some true) = none
delivery_note sent (some false) =
    some "target agent is offline; the message waits in its durable inbox"

pub record Requested : Type 0 where
  pub task_id : String
  pub to : String
  pub delivery : Sent
  pub note : Option String

unfoldable pub send_request :
    (current : Option String)
    → (card : Option Bool) → (me to objective reason kind : String) → RequestOptions
    → List Json
    → (parent_task : Option String) → (priority : String) → M Requested
unfolding request resolve request_body refs_from
send_request current card me to objective reason kind options artifacts parent_task priority = do
  refs ← lift (refs_from (items artifacts))
  r ←
      request (some me) to (request_body objective reason kind options) refs
        (parent_or parent_task current) priority none
  target ← resolve to
  pure (record { task_id = r.0; to = target; delivery = r.1; note = delivery_note r.1 card })

-- key or f"{node}/{agent}/{task_id or _current_task() or 'adhoc'}/{name}"
abbrev artifact_key : Option String → String → String → Option String → String → String
artifact_key key node agent task name =
    let default =
      node ⧺ ("/" ⧺ (agent ⧺ ("/" ⧺ (elim task [ none ↦ "adhoc" | some t ↦ t ] ⧺ ("/" ⧺ name))))) in
    elim key [ none ↦ default | some k ↦ (if k == "" then default else k) ]

-- The store is a function from a key to the reference under which it keeps the file, or its error.
unfoldable pub publish_artifact :
    (store : String → Result ArtifactRef)
    → (current : Option String) → (me name : String) → (key task_id : Option String) → M Json
unfolding local_agent has
publish_artifact store current me name key task_id = do
  c ← gets (λ (s : State). s.cfg)
  who ← lift (local_agent c (some me))
  if has who.1 Permission.publish_artifact then pure tt else raise permission_denied
  ref ← lift (store (artifact_key key who.0.node who.0.agent (parent_or task_id current) name))
  pure (ref_to_dict ref)
