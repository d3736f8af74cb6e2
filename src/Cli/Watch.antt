-- ===== src/Cli/Watch.antt =====
-- The notifier (src/mutmuas/cli.py: _with_hub, cmd_watch). The state of the node is given as it is at each
-- poll; between polls other processes change it.
use mutmuas.Prelude.{
  ℕ, ◌+◌, String, Bool, true, false, Option, none, some, List, [], ◌∷◌, ltb, if◌then◌else◌,
}
use mutmuas.Result.{Error, bus_unavailable, untyped, Result, ok, err}
use mutmuas.Ledger.Inbox.{after_row}
use mutmuas.Hub.State.{State}
use mutmuas.Tools.Inbox.{Item, actionable, inbox}

-- How `_with_hub` fares: it runs with the hub, raises, or still waits when the attempts are over.
pub data Opened : Type 0 where
  opened waiting : Opened
  raised : Error → Opened

-- min(delay * 2, 30)
abbrev next_delay : ℕ → ℕ
next_delay delay = if ltb (delay + delay) 30 then delay + delay else 30

-- The end, and the seconds that it slept before each retry. An attempt is what `Hub.open` made of it.
unfoldable pub with_hub : Bool → ℕ → List (Result (Unit {0})) → Opened × List ℕ
with_hub watch delay [] = (waiting, [])
with_hub watch delay (ok _ ∷ rest) = (opened, [])
with_hub true delay (err bus_unavailable ∷ rest) =
    let (end_, slept) = with_hub true (next_delay delay) rest in (end_, delay ∷ slept)
with_hub watch delay (err e ∷ rest) = (raised e, [])

-- max(r["seq"] for r in rows), from the greatest so far
abbrev pub max_seq : ℕ → List Item → Result ℕ
max_seq n [] = ok n
max_seq n (i ∷ items) = elim i.seq [
  | none ↦ err untyped
  | some k ↦ max_seq (if ltb n k then k else n) items
]

abbrev pub first_max : Item → List Item → Result ℕ
first_max i items = elim i.seq [ none ↦ err untyped | some k ↦ max_seq k items ]

-- A round of the loop: it sleeps after an error of the inbox, finds nothing, or notifies of some messages.
pub data Round : Type 0 where
  failed : Error → Round
  nothing : Round
  notified : List Item → Round

abbrev pub announced : List Item → Result ℕ → Result (Round × ℕ)
announced items (err e) = err e
announced items (ok n) = ok (notified items, n)

-- What a round does with the rows of the inbox, and the cursor that it leaves.
abbrev pub round_of : ℕ → Result (List Item) → Result (Round × ℕ)
round_of cursor (err e) = ok (failed e, cursor)
round_of cursor (ok []) = ok (nothing, cursor)
round_of cursor (ok (i ∷ items)) = announced (i ∷ items) (first_max i items)

-- tools.inbox(hub, me, peek=True, types=ACTIONABLE, since=cursor)
abbrev pub poll : String → ℕ → State → Result (List Item)
poll me cursor s = (inbox me false 50 true actionable (after_row cursor) s).0

-- An error that the loop does not catch ends it.
abbrev pub go_on : Result (Round × ℕ) → (ℕ → List Round × Option Error) → List Round × Option Error
go_on (err e) next = ([], some e)
go_on (ok (r, n)) next = let (rs, e) = next n in (r ∷ rs, e)

-- The rounds of `cmd_watch`, from a cursor.
unfoldable pub watch : String → ℕ → List State → List Round × Option Error
watch me cursor [] = ([], none)
watch me cursor (s ∷ rest) = go_on (round_of cursor (poll me cursor s)) (λ n. watch me n rest)
