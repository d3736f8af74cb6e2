-- ===== src/Bus/Mailboxes.antt =====
-- The mailboxes of the agents on the server (src/mutmuas/bus.py: ensure_inbox, remove_agent,
-- inbox_pending). The server's consumers are a list; what waits in one is the server's answer.
use mutmuas.Prelude.{
  ℕ, ◌+◌, String, Bool, not, Option, none, some, List, [], ◌∷◌, ◌++◌, any, select, nat_eq, ◌==◌,
  if◌then◌else◌,
}
use mutmuas.Ids.{Address}
use mutmuas.Bus.{Names, inbox_filter, consumer}

pub record Mailbox : Type 0 where
  pub durable_name : String
  pub filter_subject : String

abbrev is_mailbox_of : Address → Mailbox → Bool
is_mailbox_of agent m = m.durable_name == consumer agent

-- A mailbox that is there is left as it is.
unfoldable pub ensure_inbox : Names → Address → List Mailbox → List Mailbox
unfolding inbox_filter consumer
ensure_inbox n agent boxes =
    if any (is_mailbox_of agent) boxes
    then boxes
    else boxes
      ++ (record { durable_name = consumer agent; filter_subject = inbox_filter n agent } ∷ [])

-- num_pending + num_ack_pending, if there is a consumer
unfoldable pub inbox_pending : Option (ℕ × ℕ) → Option ℕ
inbox_pending none = none
inbox_pending (some (waiting, unacked)) = some (waiting + unacked)

pub data Removed : Type 0 where
  card_removed : Removed
  mailbox_kept : ℕ → Removed
  mailbox_removed : Removed

abbrev without_mailbox : Address → List Mailbox → List Mailbox
without_mailbox agent boxes = select (λ m. not (is_mailbox_of agent m)) boxes

-- The outcome, and the mailboxes that are left; `info` is the server's answer on what waits.
unfoldable pub remove_agent :
    Option (ℕ × ℕ) → Address → Bool → List Mailbox → Removed × List Mailbox
unfolding inbox_pending consumer
remove_agent info agent force boxes = elim (inbox_pending info) [
  | none ↦ (card_removed, boxes)
  | some n ↦
      if not (nat_eq n 0)
      then (if force
          then (mailbox_removed, without_mailbox agent boxes)
          else (mailbox_kept n, boxes))
      else (mailbox_removed, without_mailbox agent boxes)
]
