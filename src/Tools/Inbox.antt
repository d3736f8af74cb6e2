-- ===== src/Tools/Inbox.antt =====
-- The inbox of an agent (src/mutmuas/tools.py: inbox, ACTIONABLE, WAKE). The wait for a first message
-- only reads; it is over when this begins.
use mutmuas.Prelude.{
  ℕ, String, Bool, true, false, not, ◌&&◌, Option, none, some, List, [], ◌∷◌, ◌++◌, map, select,
  take, find, ◌==◌,
}
use mutmuas.Result.{ok}
use mutmuas.Exec.{◌>>=◌, gets, pure, lift}
use mutmuas.Json.{Json, Fields}
use mutmuas.Ids.{to_text}
use mutmuas.Protocol.Types.{MessageType}
use mutmuas.Protocol.Envelope.{Envelope}
use mutmuas.Protocol.Codec.{ref_to_dict}
use mutmuas.Ledger.Rows.{inbound, Message, Ledger, has_message_key, is_direction}
use mutmuas.Ledger.Inbox.{Since, unseen}
use mutmuas.Hub.State.{State, M, transaction}
use mutmuas.Hub.Requests.{local_agent}

-- Messages that need a decision from the recipient.
abbrev pub actionable : List MessageType
actionable =
    MessageType.request ∷ MessageType.question ∷ MessageType.answer ∷ MessageType.result
    ∷ MessageType.blocked ∷ MessageType.reject ∷ MessageType.cancel ∷ MessageType.error ∷ []

-- What interrupts an interactive session.
abbrev pub wake : List MessageType
wake =
    MessageType.request ∷ MessageType.question ∷ MessageType.answer ∷ MessageType.blocked
    ∷ MessageType.reject ∷ MessageType.cancel ∷ MessageType.error ∷ []

pub record Item : Type 0 where
  pub message_id : String
  pub type : MessageType
  pub sender : String
  pub task_id : Option String
  pub timestamp : Json
  pub received_at : Option ℕ
  pub seq : Option ℕ
  pub body : Fields
  pub artifacts : List Json

abbrev pub item_of : Ledger → Envelope → Item
item_of l e =
    let row = find (has_message_key e.message_id inbound) l.messages in
    record {
      message_id = e.message_id;
      type = e.type;
      sender = e.sender;
      task_id = e.task_id;
      timestamp = e.timestamp;
      received_at = elim row [ none ↦ none | some m ↦ some m.created_at ];
      seq = elim row [ none ↦ none | some m ↦ some m.rowid ];
      body = e.body;
      artifacts = map ref_to_dict e.artifacts;
    }

abbrev reversed : List Message → List Message
reversed [] = []
reversed (m ∷ ms) = reversed ms ++ (m ∷ [])

-- ORDER BY rowid DESC LIMIT ?; the rows stand in the order of their rowids.
abbrev received : String → ℕ → Ledger → List Envelope
received addr limit l =
    map (λ (m : Message). m.envelope)
      (take limit (
        reversed (
          select (λ (m : Message). is_direction m.direction inbound && m.local_agent == addr)
            l.messages)))

abbrev pub listed : Bool → String → ℕ → Bool → List MessageType → Since → M (List Envelope)
listed true addr limit peek types since = gets (λ (s : State). received addr limit s.ledger)
listed false addr limit peek types since =
    transaction (λ now l. ok (unseen addr limit (not peek) types since l))

unfoldable pub inbox : String → Bool → ℕ → Bool → List MessageType → Since → M (List Item)
unfolding local_agent
inbox me include_seen limit peek types since = do
  c ← gets (λ (s : State). s.cfg)
  who ← lift (local_agent c (some me))
  envs ← listed include_seen (to_text who.0) limit peek types since
  l ← gets (λ (s : State). s.ledger)
  pure (map (item_of l) envs)
