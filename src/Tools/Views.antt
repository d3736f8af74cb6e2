-- ===== src/Tools/Views.antt =====
-- What an agent is shown of cards and tasks (src/mutmuas/tools.py: card_summary, _brief, _note,
-- list_agents, find_agent). Cards and views are JSON objects that the hub returns.
use Prim.Native.Nat.{◌-◌}
use mutmuas.Prelude.{ℕ, zero, suc, String, Bool, true, false, List, [], ◌∷◌, map, if◌then◌else◌}
use mutmuas.Result.{Result, ok, err, attribute_error, untyped, ◌>>=◌}
use mutmuas.Json.{
  Json, str, arr, obj, bool, Items, nil, cons, Fields, end, field, get, or_else, truthy, is_blank,
  items, put,
}
use mutmuas.Hub.Notes.{body_note}

-- value in (None, "", [])
abbrev is_missing : Json → Bool
is_missing (arr nil) = true
is_missing v = is_blank v

-- {k: d.get(k) for k in keys if d.get(k) not in (None, "", [])}
unfoldable pub picked : List String → Fields → Fields
picked [] d = end
picked (k ∷ ks) d = if is_missing (get d k) then picked ks d else field k (get d k) (picked ks d)

unfoldable pub card_summary : Fields → Fields
unfolding picked
card_summary card =
    picked
      ("address" ∷ "display" ∷ "role" ∷ "mode" ∷ "runtime" ∷ "provider" ∷ "model" ∷ "capabilities"
        ∷ "permissions" ∷ "accept_from" ∷ "state" ∷ "online" ∷ "current_task" ∷ "queue"
        ∷ "inbox_unread" ∷ "last_heartbeat" ∷ "description" ∷ [])
      card

unfoldable pub list_agents : List Fields → List Fields
unfolding card_summary
list_agents cards = map card_summary cards

-- The best candidate is the first; the text of the message is an argument.
unfoldable pub find_agent : String → List Fields → Fields
unfolding card_summary
find_agent message [] = field "found" (bool false) (field "message" (str message) end)
find_agent message (best ∷ others) = field "found" (bool true) (
    field "best" (obj (card_summary best))
      (field "alternatives" (arr (items (map (λ c. get c "address") others))) end))

unfoldable pub note : Fields → Result Json
note m =
    if truthy (get m "note")
    then ok (get m "note")
    else body_note 300 ("summary" ∷ "message" ∷ "reason" ∷ "question" ∷ "answer" ∷ "objective" ∷ [])
        (or_else (get m "body") (obj end))

abbrev recent_one : Json → Result Json
recent_one (obj m) = do
  n ← note m
  ok (
      obj (
        field "type" (get m "type")
          (field "from" (get m "from") (field "at" (get m "timestamp") (field "note" n end)))))
recent_one _ = err attribute_error

abbrev recent : Items → Result Items
recent nil = ok nil
recent (cons m ms) = do x ← recent_one m; xs ← recent ms; ok (cons x xs)

abbrev count_of : Items → ℕ
count_of nil = 0
count_of (cons _ xs) = suc (count_of xs)

abbrev dropped : ℕ → Items → Items
dropped zero xs = xs
dropped (suc n) nil = nil
dropped (suc n) (cons _ xs) = dropped n xs

-- thread[-6:]
abbrev last_six : Items → Items
last_six xs = dropped (count_of xs - 6) xs

abbrev with_thread : Json → Fields → Result Fields
with_thread (arr nil) out = ok out
with_thread (arr xs) out = do ms ← recent (last_six xs); ok (put out "recent_messages" (arr ms))
with_thread _ out = err untyped

unfoldable pub brief : Fields → Result Fields
unfolding picked note
brief view = with_thread (or_else (get view "thread") (arr nil)) (
    picked
      ("task_id" ∷ "status" ∷ "result_status" ∷ "requester" ∷ "owner" ∷ "objective" ∷ "result"
        ∷ "output_refs" ∷ "attempts" ∷ "updated_at" ∷ "timed_out_waiting" ∷ [])
      view)
