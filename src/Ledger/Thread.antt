-- ===== src/Ledger/Thread.antt =====
-- The messages about a task, in the order of their timestamps (src/mutmuas/ledger.py: thread).
use Prim.Native.Nat.{Ordering}
use Prim.Native.String.{compare}
use mutmuas.Prelude.{
  String, Bool, true, false, List, [], ◌∷◌, all, any, select, ltb, ◌==◌, if◌then◌else◌,
}
use mutmuas.Result.{Result, ok, err, type_error, untyped}
use mutmuas.Json.{str, num, bool}
use mutmuas.Ledger.Rows.{Message, Ledger, is_about}

-- ORDER BY created_at, rowid
abbrev insert_oldest : Message → List Message → List Message
insert_oldest m [] = m ∷ []
insert_oldest m (n ∷ ns) =
    if ltb n.created_at m.created_at then n ∷ insert_oldest m ns else m ∷ n ∷ ns

abbrev oldest_first : List Message → List Message
oldest_first [] = []
oldest_first (m ∷ ms) = insert_oldest m (oldest_first ms)

-- A message between two agents of the node has two rows: the first is kept.
abbrev once : List String → List Message → List Message
once seen [] = []
once seen (m ∷ ms) =
    if any (λ id. id == m.message_id) seen then once seen ms else m ∷ once (m.message_id ∷ seen) ms

abbrev is_text : Message → Bool
is_text m = elim m.envelope.timestamp [ str _ ↦ true | _ ↦ false ]

abbrev is_number : Message → Bool
is_number m = elim m.envelope.timestamp [ num _ ↦ true | bool _ ↦ true | _ ↦ false ]

abbrev text_before : Message → Message → Bool
text_before a b = elim a.envelope.timestamp [
  | str s ↦ elim b.envelope.timestamp [
    | str t ↦ elim (compare s t) [ Ordering.lt ↦ true | _ ↦ false ]
    | _ ↦ false
  ]
  | _ ↦ false
]

abbrev insert_by_text : Message → List Message → List Message
insert_by_text m [] = m ∷ []
insert_by_text m (n ∷ ns) = if text_before n m then n ∷ insert_by_text m ns else m ∷ n ∷ ns

abbrev by_text : List Message → List Message
by_text [] = []
by_text (m ∷ ms) = insert_by_text m (by_text ms)

abbrev is_single : List Message → Bool
is_single [] = true
is_single (_ ∷ []) = true
is_single _ = false

-- `out.sort(key=timestamp)`: texts sort; a text beside another value raises a TypeError. A thread of
-- numbers alone, which no message of this node is in, is outside the model.
abbrev sorted : List Message → Result (List Message)
sorted ms =
    if is_single ms
    then ok ms
    else if all is_text ms
    then ok (by_text ms)
    else if all is_number ms
    then err untyped
    else err type_error

unfoldable pub thread : String → Ledger → Result (List Message)
thread task_id l = sorted (once [] (oldest_first (select (is_about task_id) l.messages)))
