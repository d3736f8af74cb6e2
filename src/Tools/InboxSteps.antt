-- ===== src/Tools/InboxSteps.antt =====
-- The inbox, requests and artifacts of src/mutmuas/tools.py, and the outbox loop, by the rules of
-- Hub/Runs.
use mutmuas.Prelude.{ℕ, String, Bool, true, false, not, arith, Option, List}
use mutmuas.Result.{Result, ok}
use mutmuas.Json.{Json}
use mutmuas.Protocol.Types.{MessageType}
use mutmuas.Protocol.Envelope.{ArtifactRef}
use mutmuas.Protocol.Bodies.{RequestOptions}
use mutmuas.Ledger.Inbox.{Since, unseen}
use mutmuas.Ledger.History.{reads}
use mutmuas.Hub.Promise.{Promise, Runs-transaction}
use mutmuas.Hub.Runs.{Runs, run_rules}
use mutmuas.Hub.Sending.{flush_outbox}
use mutmuas.Hub.Steps.{flush_outbox-Runs}
use mutmuas.Hub.OwnerSteps.{request-Runs, resolve-Runs}
use mutmuas.Node.Cards.{outbox_round}
use mutmuas.Tools.Inbox.{inbox, listed}
use mutmuas.Tools.Requests.{send_request, publish_artifact}

module _ (P : Promise) where
  listed-Runs :
      (b : Bool) (addr : String) (limit : ℕ) (peek : Bool) (types : List MessageType)
      (since : Since)
      → Runs P.rel (listed b addr limit peek types since)
  listed-Runs true addr limit peek types since = search (run_rules)
  listed-Runs false addr limit peek types since =
      Runs-transaction P (λ now l. ok (unseen addr limit (not peek) types since l))
        (λ t l l' es h. reads addr limit (not peek) types since (ground arith))

  pub inbox-Runs :
      (me : String) (b : Bool) (limit : ℕ) (peek : Bool) (types : List MessageType) (since : Since)
      → Runs P.rel (inbox me b limit peek types since)
  unfolding inbox
  inbox-Runs me b limit peek types since = search (run_rules, listed-Runs) depth 20

  pub send_request-Runs :
      (current : Option String) (card : Option Bool) (me to objective reason kind : String)
      (options : RequestOptions) (artifacts : List Json) (parent : Option String)
      (priority : String)
      → Runs P.rel
          (send_request current card me to objective reason kind options artifacts parent priority)
  unfolding send_request
  send_request-Runs current card me to objective reason kind options artifacts parent priority =
      search (run_rules, request-Runs P, resolve-Runs P) depth 20

  pub publish_artifact-Runs :
      (store : String → Result ArtifactRef) (current : Option String) (me name : String)
      (key id : Option String)
      → Runs P.rel (publish_artifact store current me name key id)
  unfolding publish_artifact
  publish_artifact-Runs store current me name key id = search (run_rules) depth 20

  flushed : Runs P.rel flush_outbox
  flushed = flush_outbox-Runs P

  pub outbox_round-Runs : Runs P.rel outbox_round
  unfolding outbox_round
  outbox_round-Runs = search (run_rules, flushed) depth 20
